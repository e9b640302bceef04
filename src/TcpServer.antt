-- ===== src/TcpServer.antt =====
-- tcp_server/tcp_server.cpp, with what it uses of socket/socket.cpp. What the system calls return is an
-- argument; so are the callbacks that `std::bind` makes, by their numbers. The two IOManagers are queues by
-- their addresses, and may be one and the same. Another thread's `stop` may come before each look at `mIsStop`.
pub mod Accept
use co_kv.Prelude.{
  ℕ, zero, suc, ◌+◌, ◌-◌, Bool, true, false, not, Option, none, some, List, [], ◌∷◌, ◌++◌, ◌==◌,
  if◌then◌else◌, ℤ, pos, negsuc,
}
use co_kv.Prelude.Run.{Run, done, fault, out_of_fuel, bind_run}
use co_kv.SkipList.Memory.{Bytes}
use co_kv.Scheduler.{Task, Sched, add_task}

-- `m_sockfd` and `isconnected` of a Socket.
pub record Socket : Type 0 where
  pub sockfd : ℤ
  pub isconnected : Bool

-- `Socket(Family, Type)`, for what `::socket` returns.
unfoldable pub create_tcp : ℤ → Socket
create_tcp fd = record { sockfd = fd; isconnected = false }

-- `Socket(int fd)`
unfoldable pub connected : ℤ → Socket
connected fd = record { sockfd = fd; isconnected = true }

-- `Socket::accept`, for what `::accept` returns.
unfoldable pub accept : ℤ → Option Socket
unfolding connected
accept (pos fd) = some (connected (pos fd))
accept (negsuc n) = if n == 0 then none else some (connected (negsuc n))

-- `Socket::close`, for the descriptors that `::close` has been called with.
unfoldable pub close : Socket → List ℤ → Socket × List ℤ
close s closed = (record s { isconnected = false }, closed ++ s.sockfd ∷ [])

-- `~Socket`: the descriptor is forgotten, and not closed.
unfoldable pub destroy : Socket → Socket
destroy s = record s { sockfd = negsuc 0; isconnected = false }

-- The members of a TcpServer, the queues of IOManagers by address, and the descriptors closed.
pub record TcpServer : Type 0 where
  pub lis_sock : Socket
  pub acceptor : ℕ
  pub worker : ℕ
  pub is_stop : Bool
  pub pool : ℕ → Sched
  pub closed : List ℤ

-- `TcpServer(accept, worker)`
unfoldable pub construct : ℤ → ℕ → ℕ → (ℕ → Sched) → TcpServer
unfolding create_tcp
construct fd accept worker pool = record {
  lis_sock = create_tcp fd;
  acceptor = accept;
  worker = worker;
  is_stop = true;
  pool = pool;
  closed = [];
}

-- `bind`, for the results of `Socket::bind`, one for each round of its loop, and that of `listen`.
unfoldable pub bind : List ℤ → Bool → Option Bool
bind [] listening = none
bind (pos zero ∷ rest) listening = some listening
bind (pos (suc n) ∷ rest) listening = bind rest listening
bind (negsuc n ∷ rest) listening = bind rest listening

abbrev pub cb_task : ℕ → Task
cb_task f = record { cb = some f; selfco = none; thread_num = none }

-- `addTask` of the IOManager at an address.
abbrev pub add_to : ℕ → ℕ → TcpServer → TcpServer
add_to p f t = record t { pool = λ q. if q == p then add_task (cb_task f) (t.pool p) else t.pool q }

-- `start`, for the number of the callback of `handleAccept`.
unfoldable pub start : ℕ → TcpServer → TcpServer
unfolding add_task
start handle t = if t.is_stop then add_to t.acceptor handle (record t { is_stop = false }) else t

-- `stop`
unfoldable pub stop : TcpServer → TcpServer
stop t = record t { is_stop = true }

-- A round of the loop of `handleAccept`: whether `stop` comes before it, and what `::accept` returns in it.
pub record Round : Type 0 where
  pub stops : Bool
  pub result : ℤ

abbrev pub close_listening : TcpServer → TcpServer
close_listening t =
    let (s, closed) = close t.lis_sock t.closed in record t { lis_sock = s; closed = closed }

module _ (bind_client : Socket → ℕ) where
  -- The body of the loop, behind `accept`.
  abbrev pub serve_client : Option Socket → TcpServer → TcpServer
  serve_client none t = t
  serve_client (some s) t = add_to t.worker (bind_client s) t

  -- `handleAccept`; the result says whether it has returned.
  unfoldable pub handle_accept : List Round → TcpServer → Bool × TcpServer
  unfolding accept add_task stop close
  handle_accept [] t = (false, t)
  handle_accept (r ∷ rest) t =
      let t' = if r.stops then stop t else t in
      let served = handle_accept rest (serve_client (accept r.result) t') in
      if t'.is_stop then (true, close_listening t') else served

-- What a round of the loop of `handleClient` meets: what `recv` and, behind it, `send` return.
pub data Exchange : Type 0 where
  ended : Exchange
  broken : Exchange
  answered : ℤ → Exchange

-- The length of "hello world!\r\n"
abbrev pub reply_length : ℕ
reply_length = 14

abbrev pub all_sent : ℤ → Bool
all_sent (pos n) = n == reply_length
all_sent (negsuc n) = false

-- `handleClient` of the TcpServer itself, with how many replies have been sent; the result says whether it has
-- returned.
unfoldable pub handle_client : List Exchange → ℕ → Socket × List ℤ → Bool × (ℕ × (Socket × List ℤ))
unfolding close
handle_client [] sent (s, closed) = (false, (sent, (s, closed)))
handle_client (ended ∷ rest) sent (s, closed) =
    let (s', closed') = close s closed in (true, (sent, close s' closed'))
handle_client (broken ∷ rest) sent (s, closed) = (true, (sent, close s closed))
handle_client (answered n ∷ rest) sent (s, closed) =
    let more = handle_client rest (sent + 1) (s, closed) in
    if all_sent n then more else (true, (sent + 1, (s, closed)))
