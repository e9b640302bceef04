-- ===== src/Examples/Descriptors.antt =====
-- A descriptor that is closed while a coroutine waits for it (hook/hook.cpp).
use co_kv.Prelude.{ℕ, ◌≡◌, ◌≢◌, ◌≤◌, length, refl, true, some, none, [], ◌∷◌, arith, pos, get_elem?}
use co_kv.Prelude.Run.{done}
use co_kv.Prelude.Vector.{slot}
use co_kv.FdManager.{FdTable, made}
use co_kv.FdManager.Table.{IsTable, SameBut}
use co_kv.IoManager.Contexts.{Balanced}
use co_kv.IoManager.{resumes, grown}
use co_kv.Hook.Descriptors.{Process, close_hook}
use co_kv.Hook.Close.{Cleared, close_hook-forgets}
use co_kv.Examples.Tables.{
  sockets, table, table-IsTable, waiting, one_event, one_event-Balanced, zeroth,
}

abbrev zeroth_known : FdTable
zeroth_known = record table { datas = some (made 0 true true) ∷ table.datas }

zeroth_known-IsTable : IsTable zeroth_known
zeroth_known-IsTable = let h : 64 ≤ length table.datas = table-IsTable in omega arith

zero_ne_one : ◌≢◌ {A = ℕ} 0 1
zero_ne_one = ground arith

zeroth_slot : slot zeroth_known.datas 0 ≡ some (made 0 true true)
unfolding slot
zeroth_slot = refl

abbrev process : Process
process = record {
  table = zeroth_known;
  io = one_event;
  trace = record { calls = 0; timers = []; cancelled = 0 };
  closed = [];
}

close_hook-forgets_example :
    (p' : Process) × (close_hook sockets 0 process ≡ done tt p')
    × (slot p'.table.datas 0 ≡ none)
    × SameBut 0 process.table p'.table
    × IsTable p'.table
    × Balanced p'.io
    × Cleared 0 p'.io
    × (p'.io.tasks ≡ (1, resumes 9) ∷ [])
    × ((q : ℕ) → q ≢ 0 → get_elem? p'.io.contexts q ≡ get_elem? (grown 0 one_event.contexts) q)
    × (p'.closed ≡ pos 0 ∷ [])
close_hook-forgets_example =
    close_hook-forgets sockets 0 process waiting (made 0 true true) zero_ne_one zeroth_known-IsTable
      one_event-Balanced zeroth zeroth_slot
