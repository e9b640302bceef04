-- ===== src/IoManager/Reports.antt =====
-- The ready descriptors that the loop of `IOManager::idle` serves (iomananger/iomanager.cpp).
use co_kv.Prelude.{
  ℕ, ◌≡◌, ◌≢◌, refl, sym, ◌∙◌, ap, Bool, Option, none, some, List, [], ◌∷◌, ◌++◌, get_elem?,
  append_nil, append_assoc,
}
use co_kv.Prelude.Run.{done}
use co_kv.IoManager.{Events, FdContext, Io, Task}
use co_kv.IoManager.Contexts.{Balanced}
use co_kv.IoManager.Trigger.{waiting_if, reads, handle_ready-Fires}
use co_kv.IoManager.Told.{told, Among}
use co_kv.IoManager.Idle.{Ready, woken, ready, handle_all}

-- The descriptor is not among these reports.
abbrev Apart : ℕ → List Ready → Type 0
Apart fd [] = Unit
Apart fd (woken ∷ rest) = Apart fd rest
Apart fd (ready q es failed ∷ rest) = (q ≢ fd) × Apart fd rest

-- What epoll reports in one call: each descriptor once, and only events that it has been told of. Nothing is
-- left of a `cancelEvent` of one of two events: epoll has been told what is registered.
unfoldable pub Reported : List Ready → Io → Type 0
Reported [] m = Unit
Reported (woken ∷ rest) m = Reported rest m
Reported (ready fd es failed ∷ rest) m =
    ((c : FdContext) × (get_elem? m.contexts fd ≡ some c)
      × Among es (told fd m)
      × (told fd m ≡ c.events))
    × Apart fd rest
    × Reported rest m

-- The tasks that a report is to give to schedulers: what waits for the events.
abbrev fired_for : Events → Bool → Option FdContext → List (ℕ × Task)
fired_for es failed none = []
fired_for es failed (some c) =
    waiting_if (reads es failed c) c.read ++ waiting_if es.has_write c.write

unfoldable pub fired_by : List Ready → Io → List (ℕ × Task)
fired_by [] m = []
fired_by (woken ∷ rest) m = fired_by rest m
fired_by (ready fd es failed ∷ rest) m =
    fired_for es failed (get_elem? m.contexts fd) ++ fired_by rest m

-- The reports are of registered events of different descriptors.
Asks : List Ready → Io → Type 0
Asks [] m = Unit
Asks (woken ∷ rest) m = Asks rest m
Asks (ready fd es failed ∷ rest) m =
    ((c : FdContext) × (get_elem? m.contexts fd ≡ some c) × Among es c.events)
    × Apart fd rest
    × Asks rest m

Reported-Asks : (rs : List Ready) (m : Io) → Reported rs m → Asks rs m
unfolding Reported Asks
Reported-Asks [] m h = tt
Reported-Asks (woken ∷ rest) m h = Reported-Asks rest m h
Reported-Asks (ready fd es failed ∷ rest) m ((c, e, (r, w), same), apart, h) = (
  (
    c,
    e,
    (
      λ x. sym (ap (λ (es : Events). es.has_read) same) ∙ r x,
      λ x. sym (ap (λ (es : Events). es.has_write) same) ∙ w x,
    ),
  ),
  apart,
  Reported-Asks rest m h,
)

-- The contexts but for one descriptor.
abbrev SameBut : ℕ → Io → Io → Type 0
SameBut fd m m' = (q : ℕ) → q ≢ fd → get_elem? m'.contexts q ≡ get_elem? m.contexts q

Asks-SameBut :
    (fd : ℕ) (rs : List Ready) (m m' : Io) → SameBut fd m m' → Apart fd rs → Asks rs m → Asks rs m'
unfolding Asks
Asks-SameBut fd [] m m' s a h = tt
Asks-SameBut fd (woken ∷ rest) m m' s a h = Asks-SameBut fd rest m m' s a h
Asks-SameBut fd (ready q es failed ∷ rest) m m' s (ne, a) ((c, e, k), apart, h) =
    ((c, s q ne ∙ e, k), apart, Asks-SameBut fd rest m m' s a h)

fired_by-SameBut :
    (fd : ℕ) (rs : List Ready) (m m' : Io)
    → SameBut fd m m'
    → Apart fd rs
    → fired_by rs m' ≡ fired_by rs m
unfolding fired_by
fired_by-SameBut fd [] m m' s a = refl
fired_by-SameBut fd (woken ∷ rest) m m' s a = fired_by-SameBut fd rest m m' s a
fired_by-SameBut fd (ready q es failed ∷ rest) m m' s (ne, a) =
    ap (λ (o : Option FdContext). fired_for es failed o ++ fired_by rest m') (s q ne)
    ∙ ap (λ (ts : List (ℕ × Task)). fired_for es failed (get_elem? m.contexts q) ++ ts)
        (fired_by-SameBut fd rest m m' s a)

handle_asked :
    (rs : List Ready) (m : Io)
    → Balanced m
    → Asks rs m
    → (m' : Io) × (handle_all rs m ≡ done tt m')
      × Balanced m'
      × (m'.tasks ≡ m.tasks ++ fired_by rs m)
unfolding handle_all fired_by Asks
handle_asked [] m h k = (m, refl, h, sym (append_nil m.tasks))
handle_asked (woken ∷ rest) m h k = handle_asked rest m h k
handle_asked (ready fd es failed ∷ rest) m h ((c, e, (r, w)), apart, k) =
    let (m₁, run, f) = handle_ready-Fires fd es failed m c h e r w in
    let (m₂, runs, b, tasks) =
      handle_asked rest m₁ f.balanced (Asks-SameBut fd rest m m₁ f.others apart k) in
    let own = waiting_if (reads es failed c) c.read in
    let ows = waiting_if es.has_write c.write in
    (
      m₂,
      rw run runs,
      b,
      tasks
          ∙ ap (λ (ts : List (ℕ × Task)). ts ++ fired_by rest m₁) f.tasks
          ∙ ap (λ (ts : List (ℕ × Task)). m.tasks ++ own ++ ows ++ ts)
              (fired_by-SameBut fd rest m m₁ f.others apart)
          ∙ ap (λ (ts : List (ℕ × Task)). ts ++ fired_by rest m) (append_assoc m.tasks own ows)
          ∙ append_assoc m.tasks (own ++ ows) (fired_by rest m)
          ∙ ap (λ (o : Option FdContext). m.tasks ++ (fired_for es failed o ++ fired_by rest m))
              (sym e),
    )

-- The loop over the ready descriptors, for what epoll reports in one call: no bad read happens, all that
-- waits for the events is given to its schedulers, in order, and the count is right.
pub handle_all-fired_by :
    (rs : List Ready) (m : Io)
    → Balanced m
    → Reported rs m
    → (m' : Io) × (handle_all rs m ≡ done tt m')
      × Balanced m'
      × (m'.tasks ≡ m.tasks ++ fired_by rs m)
handle_all-fired_by rs m h k = handle_asked rs m h (Reported-Asks rs m k)
