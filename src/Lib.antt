-- ===== src/Lib.antt =====
-- coKV: a key-value server over a skip list, on coroutines.
--
-- The parts and how they interact. `KVS` (KVserver/) serves each connection with a skip list of its
-- own (skiplist/skiplist.h): it cuts what it receives into words, looks the command up, runs it on the
-- skip list and sends a buffer of 1024 bytes. Below it, an IOManager (iomananger/) keeps for each
-- descriptor the events that coroutines wait for; it is a Scheduler (scheduler/) with a queue of tasks and a
-- TimerManager (time/) with a sorted set of timers; the hooks of system calls look descriptors up in
-- the table of fd_manager/.
--
-- Which file models which part.
--   Prelude and its children: lists, Boolean tests, std::vector (Vector), and commands over an
--     explicit state with undefined behaviour as the result `fault` (Run).
--   Text: std::string and C strings as lists of bytes.
--   SkipList: skiplist/skiplist.h. Memory has class Node and the members of class SkipList as a state of
--     nodes by address; Ops has the operations. Cells, Walk, Advance, Descend, Sorted and Inv say what a
--     well-formed list is and where the searches end in it; Lookup, Relink, Link, Spots, Insert, Delete, Random
--     and Lifetime are about one operation or its parts; Dict is the view of a list as a dictionary; Nodes
--     has the accessors of a node; Files has `dump_file` and `load_file` on texts, Files.RoundTrip compares
--     them line by line and Files.Restore on skip lists, with the insertions of Files.Loading and the pairs
--     of Files.Puts; Files.Canonical
--     compares the texts of two lists, and Files.Display prints the levels. Contents is the quotient of
--     the skip lists by their dictionary.
--   KvServer: KVserver/kvserver.cpp. Tokens is about the cutting into words, Request has the
--     protocol on dictionaries, Refine compares the two, Client has the loop of `handleClient`,
--     Conversation is about all that it does, and Connection has the whole of `handleClient`.
--   FdManager: fd_manager/fd_manager.cpp; Table sees the table as a partial map.
--   Timer: time/timer.h and time/time.cpp; Order is about the sorted set, Expiry and Collect about
--     `listExpiredCb`, Notify about `onTimerInsertedAtFront`, Moved and
--     Ordered about the set in a run of operations.
--   IoManager: iomananger/iomanager.cpp; Contexts says what a well-formed context is; Balance is about the count
--     of pending events, Trigger about the events that are triggered, Told about what epoll has been told,
--     Refused about a failing `epoll_ctl`, Runs about any run of operations. Idle has the rounds of `idle`,
--     which bring the contexts, the timers and the queue of tasks together; Wait is about how long they wait,
--     Reports about the reports of epoll, Served about what the rounds do.
--   Selfco: selfco/selfco.h and selfco/selfco.cpp, the coroutines of one thread; Held is about what a
--     switch to a coroutine comes back with.
--   Scheduler: scheduler/scheduler.h and scheduler/scheduler.cpp; Queue is about the choice of a task,
--     Loop has the rounds of `run`, Counts and Rounds are about what they keep, Taken is about a
--     callback that is taken and Fifo about the callbacks of a queue, Shared about threads that use one queue, Control has the constructor, the
--     destructor and `stop`, Stop is about the end of the threads and Stopped about that of `stop`.
--   Hook: hook/hook.cpp. The root has the function `io_func` as its retries alone, and Retry is about them and
--     the timers. Suspend has a wait on the timers and the contexts of an IOManager, Wrappers the whole of
--     `io_func` on them and the hooks that call it; Ready and Woken are about what wakes a waiting coroutine, Expired
--     about a timer that has expired, Steady about calls whose waits are ended by their events, and Follows
--     compares the two forms of `io_func`. Descriptors has the hooks of `socket`, `accept` and `close`, and
--     Close is about the last. Originals has the lookup of the system's functions.
--   Lock: lock/lock.h, the scoped locks; Exclusion is about the threads that use those over a read-write
--     lock, in any order, and Mutual about those over the other locks.
--   Thread: thread/thread.h, thread/thread.cpp and the semaphore of lock/lock.cpp; Handshake is about the
--     thread and its maker, in any order of their steps.
--   TcpServer: tcp_server/tcp_server.cpp and the members of a Socket (socket/socket.cpp); Accept is about
--     the loop that accepts clients.
--   Socket: the rest of socket/socket.cpp. Util: util/util.cpp, the time.
--   Address: socket/address.cpp; Broadcast is about the bits of a broadcast address.
--   Main: main.cpp, which makes the IOManager and starts the server.
--   Examples: concrete runs.
--
-- Parameters. The address that `new` returns, the numbers that `rand` returns, what `fstat` says of a
-- descriptor, the current time, the results of `epoll_ctl` and `epoll_wait`, the running scheduler,
-- coroutine and thread, what `recv` brings, what a hooked system call or `accept` returns, what `dlsym`
-- finds, what the others do while a hooked call waits, what the callback of a coroutine posts between
-- its switches, and what a thread makes of the scheduler until it ends, are arguments. The locks of
-- pthread and the byte orders of addresses are interfaces with laws. Keys have an equality and a strict total order;
-- std::string is an instance.
--
-- Bounds and fuel. A loop over the nodes of a skip list has `element_count + 1` rounds, and the
-- recursion of `clear` as much depth, which is enough on a list whose count is right, where a walk passes
-- each node at most once. The loop that draws a level runs out of draws where no even number comes.
-- `io_func` and the loop over `epoll_wait` have as many rounds as there are results of the system, and
-- the loop of a scheduler's thread as many as there are addresses for new coroutines. The printing of a level
-- has `element_count + 1` rounds as well. The digits of a
-- number n are printed with fuel n + 1. Times and counts of 64 bits wrap around.
--
-- Not modelled: the opening of files, the switching of contexts itself, the printing of addresses, the
-- class Nocopyable, which has no code to run, the demo programs, and skiplist/skiplist.cpp, an older copy
-- of skiplist.h that is not built. The tasks that an event or a timer posts stand in a queue of the
-- IOManager's model, apart from the queue of the Scheduler's model. Of the pointers that keep a coroutine
-- alive, the model has those of the loop of `run`, of its queue and of `MainFunc`. What the threads do while
-- `stop` waits for them is seen one thread after the other. But for Lock, locks are left out of the models:
-- each operation is one step. The output to std::cout is left out. `int` counters of a skip list are not bounded by 2^31, as memory bounds them.
pub mod Prelude
pub mod Text
pub mod SkipList
pub mod KvServer
pub mod FdManager
pub mod Timer
pub mod IoManager
pub mod Selfco
pub mod Scheduler
pub mod Hook
pub mod Lock
pub mod Thread
pub mod Address
pub mod Socket
pub mod Util
pub mod TcpServer
pub mod Main
pub mod Examples
