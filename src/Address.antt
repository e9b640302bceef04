-- ===== src/Address.antt =====
-- socket/address.h and socket/address.cpp: an IPv4 address and its port. `htonl` and its kin are an
-- interface, with what their documentation says as laws; `inet_addr` is an argument.
pub mod Broadcast
use Prim.Native.Nat.{bit_or}
use co_kv.Prelude.{
  ℕ, ◌+◌, ◌-◌, ◌^◌, ◌<◌, ◌≡◌, Bool, true, false, ◌&&◌, Option, none, some, List, [], ◌∷◌, ltb, leb,
  if◌then◌else◌,
}
use co_kv.Prelude.Run.{Run, done, fault, Cmd}
use co_kv.SkipList.Memory.{Bytes}
use co_kv.Text.{eq_bytes}

-- A sockaddr_in; the port and the address are in the order of the network.
pub record SockAddr : Type 0 where
  pub sin_family : ℕ
  pub sin_port : ℕ
  pub s_addr : ℕ

-- The byte orders: they go back and forth, and move bytes without regard to what they hold.
pub record ByteOrder : Type 0 where
  pub htonl : ℕ → ℕ
  pub ntohl : ℕ → ℕ
  pub htons : ℕ → ℕ
  pub ntohs : ℕ → ℕ
  pub ntohl-htonl : (n : ℕ) → n < 2 ^ 32 → ntohl (htonl n) ≡ n
  pub ntohs-htons : (n : ℕ) → n < 2 ^ 16 → ntohs (htons n) ≡ n
  pub htonl-lt : (n : ℕ) → n < 2 ^ 32 → htonl n < 2 ^ 32
  pub ntohl-bit_or :
      (a b : ℕ) → a < 2 ^ 32 → b < 2 ^ 32 → ntohl (bit_or a b) ≡ bit_or (ntohl a) (ntohl b)

-- AF_INET
abbrev pub af_inet : ℕ
af_inet = 2

-- `~n` of a uint32_t
abbrev pub complement : ℕ → ℕ
complement n = 2 ^ 32 - 1 - n

module _ (o : ByteOrder) (inet_addr : Bytes → ℕ) where
  -- `Address(ip, port)`; `port >= 0` holds of every uint16_t, and 48 is "0".
  unfoldable pub construct : Bytes → ℕ → SockAddr
  construct ip port = record {
    sin_family = af_inet;
    sin_port = o.htons port;
    s_addr = if eq_bytes ip (48 ∷ []) then o.htonl 0 else inet_addr ip;
  }

module _ (o : ByteOrder) where
  -- `getPort` and `setPort`
  unfoldable pub get_port : SockAddr → ℕ
  get_port a = o.ntohs a.sin_port

  unfoldable pub set_port : ℕ → SockAddr → SockAddr
  set_port port a = record a { sin_port = o.htons port }

  -- `createSubNetMask`: a shift of an int by 32 or more is undefined, and so is INT_MIN - 1.
  unfoldable pub create_sub_net_mask : ℕ → Option ℕ
  create_sub_net_mask prefix =
      if leb 2 prefix && leb prefix 32 then some (complement (2 ^ (32 - prefix) - 1)) else none

  -- An address made from the mask; null for a prefix above 32.
  abbrev pub with_mask : ℕ → (ℕ → SockAddr) → Run (Unit {0}) (Option SockAddr)
  with_mask prefix make =
      if ltb 32 prefix then done none tt else elim (create_sub_net_mask prefix) [
        | none ↦ fault
        | some mask ↦ done (some (make mask)) tt
      ]

  unfoldable pub broadcast_address : ℕ → SockAddr → Run (Unit {0}) (Option SockAddr)
  unfolding create_sub_net_mask
  broadcast_address prefix a =
      with_mask prefix λ mask. record a { s_addr = bit_or a.s_addr (o.htonl (complement mask)) }

  unfoldable pub network_address : ℕ → SockAddr → Run (Unit {0}) (Option SockAddr)
  unfolding create_sub_net_mask
  network_address prefix a =
      with_mask prefix λ mask. record a { s_addr = o.htonl (complement mask) }

  unfoldable pub subnet_address : ℕ → SockAddr → Run (Unit {0}) (Option SockAddr)
  unfolding create_sub_net_mask
  subnet_address prefix a = with_mask prefix λ mask. record a { s_addr = o.htonl mask }
