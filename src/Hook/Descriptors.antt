-- ===== src/Hook/Descriptors.antt =====
-- The hooks of hook/hook.cpp that change the table of descriptors: `accept`, `socket` and `close`. What
-- the system calls behind them return is an argument.
use co_kv.Prelude.{
  ℕ, Bool, true, false, Option, none, some, List, ◌∷◌, ◌==◌, if◌then◌else◌, ℤ, pos, negsuc,
}
use co_kv.Prelude.Run.{Run, done, fault, out_of_fuel, bind_run}
use co_kv.FdManager.{FdCtx, FdTable, get, del}
use co_kv.IoManager.{Io, cancel_all}
use co_kv.Hook.{Result, Wait, Reply, returns, Trace, io_func}

-- The table of descriptors, the contexts of the running IOManager, what `io_func` has done, and the
-- descriptors that `close_f` has closed.
pub record Process : Type 0 where
  pub table : FdTable
  pub io : Io
  pub trace : Trace
  pub closed : List ℤ

-- An operation of the table, and one of the contexts.
abbrev pub on_table :
    {A B : Type 0} → Run FdTable A → Process → (A → Process → Run Process B) → Run Process B
on_table (done a t) p k = k a (record p { table = t })
on_table fault p k = fault
on_table out_of_fuel p k = out_of_fuel

abbrev pub on_io :
    {A B : Type 0} → Run Io A → Process → (A → Process → Run Process B) → Run Process B
on_io (done a m) p k = k a (record p { io = m })
on_io fault p k = fault
on_io out_of_fuel p k = out_of_fuel

-- `IOManager::GetThis()->cancelAll(fd)` and `FdManager::getInstance()->del(fd)`.
unfoldable pub forget : ℕ → Process → Run Process (Unit {0})
unfolding cancel_all del
forget fd p = on_io (cancel_all fd p.io) p λ _ p. on_table (del (pos fd) p.table) p λ _ p. done tt p

abbrev pub forget_known : ℕ → Option FdCtx → Process → Run Process (Unit {0})
forget_known fd none p = done tt p
forget_known fd (some _) p = forget fd p

module _ (fstat : ℕ → Option Bool) where
  -- `FdManager::getInstance()->get(fd, true)`, for a descriptor that a system call returned.
  unfoldable pub register : ℤ → Process → Run Process ℤ
  unfolding get
  register fd p = on_table (get fstat fd true p.table) p λ _ p'. done fd p'

  -- `socket`, for what `socket_f` returns; `negsuc 0` is -1.
  unfoldable pub socket_hook : Bool → ℤ → Process → Run Process ℤ
  unfolding register
  socket_hook enabled (negsuc n) p =
      if enabled
      then (if n == 0 then done (negsuc n) p else register (negsuc n) p)
      else done (negsuc n) p
  socket_hook enabled (pos fd) p = if enabled then register (pos fd) p else done (pos fd) p

  abbrev register_reply : Reply → Process → Run Process Reply
  register_reply (returns fd) p = bind_run (register (pos fd) p) λ _ p'. done (returns fd) p'
  register_reply r p = done r p

  -- `accept`, for the context of the listening descriptor.
  unfoldable pub accept_hook :
      Bool → Option FdCtx → List Result → List Wait → Process → Run Process Reply
  unfolding io_func register
  accept_hook enabled ctx rs ws p = elim (io_func enabled ctx rs ws p.trace) [
    | done r t ↦ register_reply r (record p { trace = t })
    | fault ↦ fault
    | out_of_fuel ↦ out_of_fuel
  ]

  -- `close` of a descriptor that is not negative.
  unfoldable pub close_hook : ℕ → Process → Run Process (Unit {0})
  unfolding get forget
  close_hook fd p = on_table (get fstat (pos fd) false p.table) p λ ctx p.
      bind_run (forget_known fd ctx p) λ _ p. done tt (record p { closed = pos fd ∷ p.closed })
