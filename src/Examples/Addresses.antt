-- ===== src/Examples/Addresses.antt =====
-- A broadcast address on a machine whose byte order is that of the network (socket/address.cpp).
use co_kv.Prelude.{ℕ, ◌-◌, ◌%◌, ◌<◌, ◌≡◌, refl, some, arith}
use co_kv.Prelude.Run.{done}
use co_kv.Address.{SockAddr, ByteOrder, broadcast_address}
use co_kv.Address.Broadcast.{shift_right, broadcast_address-bits}

abbrev big_endian : ByteOrder
big_endian = record {
  htonl = λ n. n;
  ntohl = λ n. n;
  htons = λ n. n;
  ntohs = λ n. n;
  ntohl-htonl = λ n h. refl;
  ntohs-htons = λ n h. refl;
  htonl-lt = λ n h. h;
  ntohl-bit_or = λ a b h k. refl;
}

-- 192.168.1.7
abbrev host : SockAddr
host = record { sin_family = 2; sin_port = 8888; s_addr = 3232235783 }

broadcast_address-bits_example :
    (a' : SockAddr) × (broadcast_address big_endian 24 host ≡ done (some a') tt)
    × (shift_right (32 - 24) a'.s_addr ≡ shift_right (32 - 24) host.s_addr)
    × ((j : ℕ) → j < 32 - 24 → shift_right j a'.s_addr % 2 ≡ 1)
    × (a'.sin_family ≡ host.sin_family)
    × (a'.sin_port ≡ host.sin_port)
broadcast_address-bits_example =
    broadcast_address-bits big_endian 24 host (omega arith) (omega arith) (omega arith)
