-- ===== src/Examples/Threads.antt =====
-- A thread that is made and joined (thread/thread.cpp), and a server (tcp_server/tcp_server.cpp).
use co_kv.Prelude.{ℕ, ◌+◌, ◌≡◌, refl, some, none, true, false, [], ◌∷◌, ◌++◌, pos, negsuc}
use co_kv.Scheduler.Control.{new_sched}
use co_kv.Thread.{Pair, joined, finished, construct, maker_step, runner_step, wait, notify, join}
use co_kv.Thread.Handshake.{makes, runs, Reach, here, next, Handshake, Reach-Handshake}
use co_kv.TcpServer.{TcpServer, Socket, cb_task, start, handle_accept}
use co_kv.TcpServer.Accept.{hearing, Accepted, start-handle_accept}

abbrev over : Pair
over = record {
  maker = joined;
  runner = finished;
  semaphore = 0;
  id = some 42;
  cb = none;
  local_cb = some 7;
  called = 7 ∷ [];
}

-- The maker waits while the thread begins, and goes on before the callback is called.
joined_pair : Reach 42 (construct 7) over
unfolding construct maker_step runner_step wait notify join
joined_pair =
    next
      (next
        (next (next (next (next (next here (makes refl)) (runs refl)) (runs refl)) (runs refl))
          (makes refl))
        (runs refl))
      (makes refl)

Reach-Handshake_example : Handshake 42 7 over
Reach-Handshake_example = Reach-Handshake 42 7 joined_pair

-- Two clients come, with a failure between them.
abbrev server : TcpServer
server = record {
  lis_sock = record { sockfd = pos 3; isconnected = false };
  acceptor = 1;
  worker = 2;
  is_stop = true;
  pool = λ _. new_sched [] 1;
  closed = [];
}

abbrev number : Socket → ℕ
number s = elim s.sockfd [ pos n ↦ n + 100 | negsuc n ↦ 0 ]

start-handle_accept_example :
    (start 50 (start 50 server) ≡ start 50 server)
    × (((start 50 server).pool 1).tasks ≡ (server.pool 1).tasks ++ cb_task 50 ∷ [])
    × ((t' : TcpServer) × (handle_accept number
            (hearing (pos 4 ∷ negsuc 0 ∷ pos 5 ∷ []) (pos 6) [])
            (start 50 server)
          ≡ (true, t'))
        × Accepted number (start 50 server) t' (pos 4 ∷ negsuc 0 ∷ pos 5 ∷ []))
start-handle_accept_example =
    start-handle_accept number 50 (pos 4 ∷ negsuc 0 ∷ pos 5 ∷ []) (pos 6) [] server refl
