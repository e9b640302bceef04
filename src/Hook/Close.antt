-- ===== src/Hook/Close.antt =====
-- What `close` of hook/hook.cpp leaves of a descriptor.
use co_kv.Prelude.{
  ℕ, ◌≡◌, ◌≢◌, refl, ◌∙◌, true, false, ◌&&◌, not, ◌++◌, Bool, Option, none, some, ◌∷◌, get_elem?,
  pos,
}
use co_kv.Prelude.Run.{done}
use co_kv.Prelude.Vector.{slot}
use co_kv.FdManager.{FdCtx}
use co_kv.FdManager.Table.{IsTable, SameBut, get-slot, del-slot}
use co_kv.IoManager.{FdContext, Io, grown}
use co_kv.IoManager.Contexts.{Balanced}
use co_kv.IoManager.Trigger.{FiresBoth, waiting_if, cancel_all-Fires}
use co_kv.Hook.Descriptors.{Process, forget, close_hook}

-- The context of the descriptor has no event.
abbrev pub Cleared : ℕ → Io → Type 0
Cleared fd m =
    (c : FdContext) × (get_elem? m.contexts fd ≡ some c)
    × (c.events.has_read ≡ false)
    × (c.events.has_write ≡ false)

FiresBoth-Cleared :
    (fd : ℕ) (c : FdContext) (m m' : Io)
    → FiresBoth fd c.events.has_read c.events.has_write c m m'
    → Cleared fd m'
FiresBoth-Cleared fd c m m' f = (
  f.ctx,
  f.here,
  f.read_left ∙ none_left c.events.has_read,
  f.write_left ∙ none_left c.events.has_write,
)
  where
    none_left : (b : Bool) → (b && not b) ≡ false
    none_left true = refl
    none_left false = refl

-- Closing a descriptor other than 1 that the table knows, in a table of at least 64 slots and with a right
-- count of pending events, gives what waits for its events to its schedulers, first for READ and then for
-- WRITE, and empties its slot before the system closes it: no event and no context is left for it, the
-- other slots and the contexts of the other descriptors are as they were, and the count is right.
pub close_hook-forgets :
    (fstat : ℕ → Option Bool) (fd : ℕ) (p : Process) (c : FdContext) (ctx : FdCtx)
    → fd ≢ 1
    → IsTable p.table
    → Balanced p.io
    → get_elem? (grown fd p.io.contexts) fd ≡ some c
    → slot p.table.datas fd ≡ some ctx
    → (p' : Process) × (close_hook fstat fd p ≡ done tt p')
      × (slot p'.table.datas fd ≡ none)
      × SameBut fd p.table p'.table
      × IsTable p'.table
      × Balanced p'.io
      × Cleared fd p'.io
      × (p'.io.tasks
          ≡ p.io.tasks
            ++ waiting_if c.events.has_read c.read
            ++ waiting_if c.events.has_write c.write)
      × ((q : ℕ) → q ≢ fd → get_elem? p'.io.contexts q ≡ get_elem? (grown fd p.io.contexts) q)
      × (p'.closed ≡ pos fd ∷ p.closed)
unfolding close_hook forget
close_hook-forgets fstat fd p c ctx ne table h e known =
    let (m, cancelled, fires) = cancel_all-Fires fd p.io c h e in
    let (t, deleted, empty, same, long) = del-slot fd p.table table in
    (
      record p { io = m; table = t; closed = pos fd ∷ p.closed },
      rw (get-slot fstat fd p.table ne, known, cancelled, deleted) refl,
      empty,
      same,
      long,
      fires.balanced,
      FiresBoth-Cleared fd c _ m fires,
      fires.tasks,
      fires.others,
      refl,
    )
