-- ===== src/Examples.antt =====
-- Runs at concrete inputs.
pub mod Items
pub mod Requests
pub mod Conversations
pub mod Tables
pub mod Clocks
pub mod Addresses
pub mod Polling
pub mod Tasks
pub mod Coroutines
pub mod Descriptors
pub mod Locks
pub mod Threads
pub mod Dump
pub mod Loaded
pub mod Waits
