-- ===== src/Text.antt =====
-- std::string and C strings as lists of bytes: comparison, cutting at a NUL, numbers as text.
use co_kv.Prelude.{
  ℕ, zero, suc, ◌+◌, ◌-◌, ◌*◌, ◌/◌, ◌%◌, ◌<◌, ◌≡◌, ◌↔◌, refl, sym, ◌∙◌, ap, Bool, true, false, ◌&&◌,
  [], ◌∷◌, ◌++◌, arith, ltb, ◌==◌, if◌then◌else◌, Bool-cases, inl, inr, Option, none, some,
}
use co_kv.SkipList.Memory.{Bytes, KeyOrder}

-- `operator<` of std::string: lexicographic, bytes as unsigned numbers.
unfoldable pub lt_bytes : Bytes → Bytes → Bool
lt_bytes [] [] = false
lt_bytes [] (y ∷ ys) = true
lt_bytes (x ∷ xs) [] = false
lt_bytes (x ∷ xs) (y ∷ ys) =
    let rest = lt_bytes xs ys in if ltb x y then true else if ltb y x then false else rest

-- `operator==` of std::string, and `strcmp(a, b) == 0` of two C strings.
unfoldable pub eq_bytes : Bytes → Bytes → Bool
eq_bytes [] [] = true
eq_bytes [] (y ∷ ys) = false
eq_bytes (x ∷ xs) [] = false
eq_bytes (x ∷ xs) (y ∷ ys) = (x == y) && eq_bytes xs ys

pub eq_bytes_refl : (xs : Bytes) → eq_bytes xs xs ≡ true
unfolding eq_bytes
eq_bytes_refl [] = refl
eq_bytes_refl (x ∷ xs) = ground (arith, eq_bytes_refl xs)

eq_of_eq_bytes : (xs ys : Bytes) → eq_bytes xs ys ≡ true → xs ≡ ys
unfolding eq_bytes
eq_of_eq_bytes [] [] h = refl
eq_of_eq_bytes [] (y ∷ ys) h = cc
eq_of_eq_bytes (x ∷ xs) [] h = cc
eq_of_eq_bytes (x ∷ xs) (y ∷ ys) h = ground (arith, eq_of_eq_bytes xs ys)

pub eq_bytes_iff : (xs ys : Bytes) → (eq_bytes xs ys ≡ true) ↔ (xs ≡ ys)
eq_bytes_iff xs ys = (eq_of_eq_bytes xs ys, λ e. ap (eq_bytes xs) (sym e) ∙ eq_bytes_refl xs)

pub lt_bytes_irrefl : (xs : Bytes) → lt_bytes xs xs ≡ false
unfolding lt_bytes
lt_bytes_irrefl [] = refl
lt_bytes_irrefl (x ∷ xs) = ground (arith, lt_bytes_irrefl xs)

pub lt_bytes_trans :
    (xs ys zs : Bytes) → lt_bytes xs ys ≡ true → lt_bytes ys zs ≡ true → lt_bytes xs zs ≡ true
unfolding lt_bytes
lt_bytes_trans [] [] zs h k = cc
lt_bytes_trans [] (y ∷ ys) [] h k = cc
lt_bytes_trans [] (y ∷ ys) (z ∷ zs) h k = refl
lt_bytes_trans (x ∷ xs) [] zs h k = cc
lt_bytes_trans (x ∷ xs) (y ∷ ys) [] h k = cc
lt_bytes_trans (x ∷ xs) (y ∷ ys) (z ∷ zs) h k = ground (arith, lt_bytes_trans xs ys zs)

pub lt_bytes_total :
    (xs ys : Bytes) → lt_bytes xs ys ≡ false → eq_bytes xs ys ≡ false → lt_bytes ys xs ≡ true
unfolding lt_bytes eq_bytes
lt_bytes_total [] [] h k = cc
lt_bytes_total [] (y ∷ ys) h k = cc
lt_bytes_total (x ∷ xs) [] h k = refl
lt_bytes_total (x ∷ xs) (y ∷ ys) h k = ground (arith, lt_bytes_total xs ys)

instance abbrev pub bytes_order : KeyOrder Bytes
bytes_order = record {
  lt = lt_bytes;
  eq = eq_bytes;
  eq_iff = eq_bytes_iff;
  lt_irrefl = lt_bytes_irrefl;
  lt_trans = lt_bytes_trans;
  lt_total = lt_bytes_total;
}

-- std::to_string of a count: its decimal digits. The fuel bounds their number.
unfoldable pub decimal : ℕ → ℕ → Bytes
decimal zero n = []
decimal (suc fuel) n =
    let rest = decimal fuel (n / 10) in
    if ltb n 10 then (48 + n) ∷ [] else rest ++ (48 + n % 10) ∷ []

unfoldable pub to_string : ℕ → Bytes
unfolding decimal
to_string n = decimal (n + 1) n

-- The number that decimal digits stand for.
unfoldable pub number : ℕ → Bytes → ℕ
number acc [] = acc
number acc (d ∷ ds) = number (acc * 10 + (d - 48)) ds

number-append : (acc d : ℕ) (xs : Bytes) → number acc (xs ++ d ∷ []) ≡ number acc xs * 10 + (d - 48)
unfolding number
number-append acc d [] = refl
number-append acc d (x ∷ xs) = number-append (acc * 10 + (x - 48)) d xs

number-decimal : (fuel n : ℕ) → n < fuel → number 0 (decimal fuel n) ≡ n
unfolding number decimal
number-decimal zero n h = elim h [ ]
number-decimal (suc fuel) n h = elim (Bool-cases (ltb n 10)) [
  | inl e ↦ rw e (omega arith)
  | inr e ↦ rw e (
      rw
        (
          number-append 0 (48 + n % 10) (decimal fuel (n / 10)),
          number-decimal fuel (n / 10) (ground arith),
        )
        (omega arith))
]

-- Reading the text of a count gives the count.
pub number-to_string : (n : ℕ) → number 0 (to_string n) ≡ n
unfolding to_string
number-to_string n = unfold to_string in number-decimal (n + 1) n (omega arith)

abbrev pub push : ℕ → Option Bytes → Option Bytes
push c none = none
push c (some t) = some (c ∷ t)

-- The C string that begins a buffer: `none` where the buffer ends before a NUL.
unfoldable pub c_string : Bytes → Option Bytes
c_string [] = none
c_string (c ∷ cs) = if c == 0 then some [] else push c (c_string cs)

-- The C string at an offset of a buffer.
unfoldable pub string_at : ℕ → Bytes → Option Bytes
unfolding c_string
string_at zero bs = c_string bs
string_at (suc i) [] = none
string_at (suc i) (b ∷ bs) = string_at i bs

-- `memcpy` into the front of a buffer; what does not fit is dropped.
unfoldable pub overlay : Bytes → Bytes → Bytes
overlay [] buf = buf
overlay (d ∷ ds) [] = []
overlay (d ∷ ds) (b ∷ bs) = d ∷ overlay ds bs

unfoldable pub until_nul : Bytes → Bytes
until_nul [] = []
until_nul (c ∷ cs) = if c == 0 then [] else c ∷ until_nul cs

abbrev pub take : ℕ → Bytes → Bytes
take zero xs = []
take (suc n) [] = []
take (suc n) (x ∷ xs) = x ∷ take n xs

abbrev pub replicate : ℕ → ℕ → Bytes
replicate zero x = []
replicate (suc n) x = x ∷ replicate n x
