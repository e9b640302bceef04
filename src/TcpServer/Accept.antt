-- ===== src/TcpServer/Accept.antt =====
-- What `start` and `handleAccept` of tcp_server/tcp_server.cpp hand over to the two IOManagers.
use co_kv.Prelude.{
  ℕ, ◌≡◌, ◌≢◌, refl, ◌∙◌, sym, ap, Bool, true, false, Option, none, some, List, [], ◌∷◌, ◌++◌, ◌==◌,
  ==_refl, if◌then◌else◌, ℤ, arith, append_assoc, append_nil,
}
use co_kv.Scheduler.{Task, Sched, add_task, add_task_no_lock}
use co_kv.TcpServer.{
  Socket, TcpServer, Round, accept, cb_task, add_to, start, stop, close, close_listening,
  serve_client, handle_accept,
}

-- The loop hears these results of `::accept`, and then `stop` comes before a round.
abbrev pub hearing : List ℤ → ℤ → List Round → List Round
hearing [] last rest = record { stops = true; result = last } ∷ rest
hearing (fd ∷ fds) last rest = record { stops = false; result = fd } ∷ hearing fds last rest

module _ (bind_client : Socket → ℕ) where
  -- The tasks for the clients that `::accept` has returned.
  abbrev pub tasks_of : Option Socket → List Task
  tasks_of none = []
  tasks_of (some s) = cb_task (bind_client s) ∷ []

  abbrev pub clients : List ℤ → List Task
  clients [] = []
  clients (fd ∷ fds) = tasks_of (accept fd) ++ clients fds

  -- What the loop has done: the worker has a task for each client, the others have nothing new, and the
  -- listening socket is closed.
  pub record Accepted (t t' : TcpServer) (fds : List ℤ) : Type 0 where
    pub handed : (t'.pool t.worker).tasks ≡ (t.pool t.worker).tasks ++ clients fds
    pub others : (q : ℕ) → q ≢ t.worker → t'.pool q ≡ t.pool q
    pub closed : t'.closed ≡ t.closed ++ t.lis_sock.sockfd ∷ []
    pub stopped : t'.is_stop ≡ true

  add_task-tasks : (f : ℕ) (s : Sched) → (add_task (cb_task f) s).tasks ≡ s.tasks ++ cb_task f ∷ []
  unfolding add_task add_task_no_lock
  add_task-tasks f s = by_tasks s.tasks refl
    where
      by_tasks :
          (ts : List Task)
          → s.tasks ≡ ts
          → (add_task (cb_task f) s).tasks ≡ s.tasks ++ cb_task f ∷ []
      by_tasks [] e = rw (add_task, e) refl
      by_tasks (x ∷ ts) e = rw (add_task, e) refl

  -- What one round leaves.
  record Served (t t' : TcpServer) (ts : List Task) : Type 0 where
    handed : (t'.pool t.worker).tasks ≡ (t.pool t.worker).tasks ++ ts
    others : (q : ℕ) → q ≢ t.worker → t'.pool q ≡ t.pool q
    worker : t'.worker ≡ t.worker
    closed : t'.closed ≡ t.closed
    lis_sock : t'.lis_sock ≡ t.lis_sock
    stopped : t'.is_stop ≡ t.is_stop

  serve_client-Served :
      (o : Option Socket) (t : TcpServer) → Served t (serve_client bind_client o t) (tasks_of o)
  serve_client-Served none t = record {
    handed = sym (append_nil (t.pool t.worker).tasks);
    others = λ q ne. refl;
    worker = refl;
    closed = refl;
    lis_sock = refl;
    stopped = refl;
  }
  serve_client-Served (some s) t =
      let e : (t.worker == t.worker) ≡ true = ==_refl t.worker in
      record {
        handed = rw e (add_task-tasks (bind_client s) (t.pool t.worker));
        others = λ q ne. (let f : (q == t.worker) ≡ false = ground (arith, ne) in rw f refl);
        worker = refl;
        closed = refl;
        lis_sock = refl;
        stopped = refl;
      }

  handle_accept-heard :
      (fd : ℤ) (more : List Round) (t : TcpServer)
      → t.is_stop ≡ false
      → handle_accept bind_client (record { stops = false; result = fd } ∷ more) t
        ≡ handle_accept bind_client more (serve_client bind_client (accept fd) t)
  unfolding handle_accept
  handle_accept-heard fd more t h =
      ap
        (λ (b : Bool).
          if b
          then (true, close_listening t)
          else handle_accept bind_client more (serve_client bind_client (accept fd) t))
        h

  handle_accept-Accepted :
      (fds : List ℤ) (last : ℤ) (rest : List Round) (t : TcpServer)
      → t.is_stop ≡ false
      → (t' : TcpServer) × (handle_accept bind_client (hearing fds last rest) t ≡ (true, t'))
        × Accepted t t' fds
  unfolding handle_accept stop close
  handle_accept-Accepted [] last rest t h = (
    close_listening (stop t),
    refl,
    record {
      handed = sym (append_nil (t.pool t.worker).tasks);
      others = λ q ne. refl;
      closed = refl;
      stopped = refl;
    },
  )
  handle_accept-Accepted (fd ∷ fds) last rest t h =
      let one = serve_client-Served (accept fd) t in
      let t₁ = serve_client bind_client (accept fd) t in
      let (t', run, more) = handle_accept-Accepted fds last rest t₁ (one.stopped ∙ h) in
      (
        t',
        handle_accept-heard fd (hearing fds last rest) t h ∙ run,
        record {
          handed =
              ap (λ (q : ℕ). (t'.pool q).tasks) (sym one.worker)
              ∙ more.handed
              ∙ ap (λ (q : ℕ). (t₁.pool q).tasks ++ clients fds) one.worker
              ∙ ap (λ (ts : List Task). ts ++ clients fds) one.handed
              ∙ append_assoc (t.pool t.worker).tasks (tasks_of (accept fd)) (clients fds);
          others = λ q ne. more.others q (λ e. ne (e ∙ one.worker)) ∙ one.others q ne;
          closed =
              more.closed
              ∙ ap (λ (c : List ℤ). c ++ t₁.lis_sock.sockfd ∷ []) one.closed
              ∙ ap (λ (x : Socket). t.closed ++ x.sockfd ∷ []) one.lis_sock;
          stopped = more.stopped;
        },
      )

  -- A stopped server that is started, any number of times, has its accepting callback queued once. Where
  -- that callback runs, hears these results of `::accept` and then finds the server stopped, it returns;
  -- its worker has one more task for each client, in their order, none for a failed `::accept`, no
  -- other queue has changed, and the listening socket has been closed once.
  pub start-handle_accept :
      (handle : ℕ) (fds : List ℤ) (last : ℤ) (rest : List Round) (t : TcpServer)
      → t.is_stop ≡ true
      → (start handle (start handle t) ≡ start handle t)
        × (((start handle t).pool t.acceptor).tasks
            ≡ (t.pool t.acceptor).tasks ++ cb_task handle ∷ [])
        × ((t' : TcpServer) × (handle_accept bind_client (hearing fds last rest) (start handle t)
              ≡ (true, t'))
            × Accepted (start handle t) t' fds)
  unfolding start
  start-handle_accept handle fds last rest t h =
      let e : (t.acceptor == t.acceptor) ≡ true = ==_refl t.acceptor in
      let started = add_to t.acceptor handle (record t { is_stop = false }) in
      let run : start handle t ≡ started = ap (λ (b : Bool). if b then started else t) h in
      (
        ap (start handle) run ∙ sym run,
        ap (λ (x : TcpServer). (x.pool t.acceptor).tasks) run
            ∙ (rw e (add_task-tasks handle (t.pool t.acceptor))),
        handle_accept-Accepted fds last rest (start handle t)
            (ap (λ (x : TcpServer). x.is_stop) run),
      )
