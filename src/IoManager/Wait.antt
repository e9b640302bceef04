-- ===== src/IoManager/Wait.antt =====
-- How long `IOManager::idle` waits (iomananger/iomanager.cpp).
use co_kv.Prelude.{
  ℕ, zero, suc, ◌+◌, ◌^◌, ◌%◌, ◌≤◌, ◌<◌, ◌≡◌, ◌≢◌, ◌⊎◌, refl, true, false, Option, none, some, List,
  [], ◌∷◌, ◌==◌, ltb, ℤ, pos, arith, All, length, Bool-cases, inl, inr,
}
use co_kv.Prelude.Run.{done}
use co_kv.IoManager.Idle.{Ready, never, as_int, clamp, wait_ready}

-- The low 32 bits of a timeout are those of an `int` that is not negative.
abbrev pub Short : ℕ → Type 0
Short n = (n ≡ never) ⊎ (n % 2 ^ 32 < 2 ^ 31)

-- A timeout of at most MAX_TIMEOUT, and not one without end.
abbrev pub Within : ℤ → Type 0
Within t = (k : ℕ) × (t ≡ pos k) × (k ≤ 5000)

as_int-pos : (n : ℕ) → n % 2 ^ 32 < 2 ^ 31 → as_int n ≡ pos (n % 2 ^ 32)
unfolding as_int
as_int-pos n h = let e : ltb (n % 2 ^ 32) (2 ^ 31) ≡ true = ground (arith, h) in rw e refl

clamp-long : (n : ℕ) → 5000 < n % 2 ^ 32 → n % 2 ^ 32 < 2 ^ 31 → clamp n ≡ 5000
unfolding clamp
clamp-long n h k =
    let e : ltb 5000 (n % 2 ^ 32) ≡ true = ground (arith, h) in
    elim (Bool-cases (n == never)) [ inl z ↦ rw z refl | inr z ↦ rw (z, as_int-pos n k, e) refl ]

clamp-short : (n : ℕ) → n ≢ never → n % 2 ^ 32 ≤ 5000 → clamp n ≡ n
unfolding clamp
clamp-short n ne h =
    let z : (n == never) ≡ false = ground (arith, ne) in
    let e : ltb 5000 (n % 2 ^ 32) ≡ false = ground (arith, h) in
    rw (z, as_int-pos n (omega (arith, h)), e) refl

clamp-never : clamp never ≡ 5000
unfolding clamp
clamp-never = refl

clamp-Short : (n : ℕ) → Short n → Within (as_int (clamp n)) × Short (clamp n)
clamp-Short n (inl e) =
    rw (e, clamp-never) ((5000, as_int-pos 5000 (omega arith), omega arith), inr (omega arith))
clamp-Short n (inr h) = elim (Bool-cases (ltb 5000 (n % 2 ^ 32))) [
  | inl e ↦
      rw (clamp-long n (ground (arith, e)) h)
        ((5000, as_int-pos 5000 (omega arith), omega arith), inr (omega arith))
  | inr e ↦
      rw (clamp-short n (λ z. omega (arith, h, z)) (ground (arith, e)))
        ((n % 2 ^ 32, as_int-pos n h, ground (arith, e)), inr h)
]

-- `epoll_wait` fails so many times, and then returns these events.
abbrev pub answering : ℕ → List Ready → List (Option (List Ready)) → List (Option (List Ready))
answering zero events rest = some events ∷ rest
answering (suc n) events rest = none ∷ answering n events rest

pub wait_ready-Within :
    (n fails : ℕ) (events : List Ready) (rest : List (Option (List Ready)))
    → Short n
    → (ts : List ℤ) × (wait_ready n (answering fails events rest) ≡ done (ts, events) tt)
      × (length ts ≡ fails + 1)
      × All Within ts
unfolding wait_ready
wait_ready-Within n zero events rest h =
    (as_int (clamp n) ∷ [], refl, refl, ((clamp-Short n h).0, tt))
wait_ready-Within n (suc fails) events rest h =
    let (within, short) = clamp-Short n h in
    let (ts, run, size, all) = wait_ready-Within (clamp n) fails events rest short in
    (as_int (clamp n) ∷ ts, rw run refl, omega (arith, size), (within, all))
