-- ===== src/Socket.antt =====
-- The operations of a Socket (socket/socket.h and socket/socket.cpp) that only the clients of a server use, or
-- that hand their arguments to the system. What the system calls return is an argument.
use co_kv.Prelude.{ℕ, ◌≡◌, refl, Bool, true, Option, some, ℤ}
use co_kv.SkipList.Memory.{Bytes}
use co_kv.Address.{SockAddr}
use co_kv.TcpServer.{Socket}

-- The system calls: `::connect`, `::bind`, `::listen`, `::send` and `::recv`, the last with the bytes that it
-- writes to the buffer.
pub record Calls : Type 0 where
  pub connects : ℤ → SockAddr → ℤ
  pub binds : ℤ → SockAddr → ℤ
  pub listens : ℤ → ℕ → ℤ
  pub sends : ℤ → Bytes → ℤ → ℤ → ℤ
  pub receives : ℤ → ℤ → ℤ → ℤ × Bytes

-- A Socket with its member `m_Addr`.
pub record Endpoint : Type 0 where
  pub socket : Socket
  pub addr : Option SockAddr

abbrev pub get_local_addr : Endpoint → Option SockAddr
get_local_addr e = e.addr

abbrev pub is_connect : Endpoint → Bool
is_connect e = e.socket.isconnected

abbrev pub get_sockfd : Endpoint → ℤ
get_sockfd e = e.socket.sockfd

module _ (sys : Calls) where
  -- `connect`, whose flag is set before the call.
  unfoldable pub connect : SockAddr → Endpoint → ℤ × Endpoint
  connect a e =
      (sys.connects e.socket.sockfd a, record e { socket = record e.socket { isconnected = true } })

  unfoldable pub bind : SockAddr → Endpoint → ℤ × Endpoint
  bind a e = (sys.binds e.socket.sockfd a, record e { addr = some a })

  unfoldable pub listen : Endpoint → ℤ
  listen e = sys.listens e.socket.sockfd 128

  unfoldable pub send : Bytes → ℤ → ℤ → Endpoint → ℤ
  send buf size flag e = sys.sends e.socket.sockfd buf size flag

  unfoldable pub recv : ℤ → ℤ → Endpoint → ℤ × Bytes
  recv size flag e = sys.receives e.socket.sockfd size flag

  -- A socket counts as connected whatever `::connect` has returned, and keeps its descriptor and address.
  pub connect-is_connect :
      (a : SockAddr) (e : Endpoint)
      → (is_connect (connect a e).1 ≡ true)
        × (get_sockfd (connect a e).1 ≡ get_sockfd e)
        × (get_local_addr (connect a e).1 ≡ get_local_addr e)
  unfolding connect
  connect-is_connect a e = (refl, refl, refl)
