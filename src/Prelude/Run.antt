-- ===== src/Prelude/Run.antt =====
-- Commands over an explicit state. `fault` stands for undefined behaviour and failed assertions
-- (a read through a null or freed pointer, an index outside an array); `out_of_fuel` for a loop
-- that has used up the rounds it was given.
use mathlib.Core.Bool.{Bool, true, false}

pub data Run (S A : Type 0) : Type 0 where
  done : A → S → Run S A
  fault : Run S A
  out_of_fuel : Run S A

abbrev pub Cmd : Type 0 → Type 0 → Type 0
Cmd S A = S → Run S A

module _ {S : Type 0} where
  abbrev pub pure : {A : Type 0} → A → Cmd S A
  pure a s = done a s

  abbrev pub bind_run : {A B : Type 0} → Run S A → (A → Cmd S B) → Run S B
  bind_run (done a s) k = k a s
  bind_run fault k = fault
  bind_run out_of_fuel k = out_of_fuel

  infixl 5 ◌>>=◌ ◌>>◌
  abbrev pub ◌>>=◌ : {A B : Type 0} → Cmd S A → (A → Cmd S B) → Cmd S B
  ◌>>=◌ m k s = bind_run (m s) k

  abbrev pub ◌>>◌ : {B : Type 0} → Cmd S (Unit {0}) → Cmd S B → Cmd S B
  ◌>>◌ m k s = bind_run (m s) (λ _. k)

  abbrev pub get_state : Cmd S S
  get_state s = done s s

  abbrev pub put_state : S → Cmd S (Unit {0})
  put_state t s = done tt t

  -- A C++ `assert`, or a bounds check that the program leaves to the caller.
  abbrev pub require : Bool → Cmd S (Unit {0})
  require true s = done tt s
  require false s = fault
