-- ===== src/SkipList/Files.antt =====
-- `dump_file` and `load_file` of skiplist/skiplist.h: the text that is written, and the pairs that are
-- read from a text. How a key is printed, and `stoi`, are arguments. Opening the file is left out.
pub mod RoundTrip
pub mod Canonical
pub mod Puts
pub mod Loading
pub mod Restore
pub mod Display
use co_kv.Prelude.{
  ℕ, zero, suc, ◌+◌, Bool, true, false, ◌||◌, Option, none, some, List, [], ◌∷◌, ◌++◌, ◌==◌,
  if◌then◌else◌,
}
use co_kv.Prelude.Run.{Run, done, out_of_fuel, Cmd, ◌>>=◌, bind_run, get_state}
use co_kv.SkipList.Memory.{KeyOrder, Bytes, Ptr, null, State, load, load_forward}
use co_kv.SkipList.Ops.{insert_element}

abbrev pub colon : ℕ
colon = 58

abbrev pub newline : ℕ
newline = 10

module _ {K : Type 0} (show : K → Bytes) where
  -- One line of the file.
  abbrev pub line : K → Bytes → Bytes
  line k v = (show k ++ colon ∷ v) ++ newline ∷ []

  -- The loop of `dump_file` over level 0.
  unfoldable pub dump_from : ℕ → Ptr → Cmd (State K) Bytes
  dump_from zero p s = out_of_fuel
  dump_from (suc fuel) p s =
      let look : Run (State K) Bytes = bind_run (load p s) λ n s.
        bind_run (load_forward p 0 s)
          λ q s. bind_run (dump_from fuel q s) λ rest s. done (line n.key n.value ++ rest) s in
      if p == null then done [] s else look

  unfoldable pub dump_file : Cmd (State K) Bytes
  dump_file s =
      bind_run (load_forward s.header 0 s) λ first s. dump_from (s.element_count + 1) first s

-- `getline`, again and again: the lines, without their ends.
abbrev first_line : ℕ → List Bytes → List Bytes
first_line c [] = (c ∷ []) ∷ []
first_line c (l ∷ ls) = (c ∷ l) ∷ ls

unfoldable pub lines : Bytes → List Bytes
lines [] = []
lines (c ∷ cs) = let rest = lines cs in if c == newline then [] ∷ rest else first_line c rest

-- A line before and behind its first delimiter, if it has one.
abbrev put_front : ℕ → Option (Bytes × Bytes) → Option (Bytes × Bytes)
put_front c none = none
put_front c (some (k, v)) = some (c ∷ k, v)

unfoldable pub split_line : Bytes → Option (Bytes × Bytes)
split_line [] = none
split_line (c ∷ cs) =
    let rest = split_line cs in if c == colon then some ([], cs) else put_front c rest

-- `get_key_value_from_string`: a line that is not valid leaves the key and the value as they were.
abbrev pub get_key_value : Option (Bytes × Bytes) → Bytes × Bytes → Bytes × Bytes
get_key_value none old = old
get_key_value (some kv) old = kv

abbrev pub is_nil : Bytes → Bool
is_nil [] = true
is_nil (_ ∷ _) = false

module _ {K : Type 0} (stoi : Bytes → K) where
  -- The loop of `load_file`: the keys and values that it inserts, in order.
  unfoldable pub load_lines : List Bytes → Bytes × Bytes → List (K × Bytes)
  load_lines [] old = []
  load_lines (l ∷ ls) old =
      let kv = get_key_value (split_line l) old in
      let rest = load_lines ls kv in
      if is_nil kv.0 || is_nil kv.1 then rest else (stoi kv.0, kv.1) ∷ rest

  unfoldable pub load_pairs : Bytes → List (K × Bytes)
  load_pairs text = load_lines (lines text) ([], [])

-- The addresses behind the first of them.
abbrev pub behind_first : (ℕ → Ptr) → ℕ → Ptr
behind_first fresh n = fresh (suc n)

module _ {K : Type 0} ⦃o : KeyOrder K⦄ (stoi : Bytes → K) where
  -- The loop of `load_file` with its insertions. `fresh n` is the address that `new` returns if the
  -- insertion behind `n` others makes a node.
  unfoldable pub load_from : List Bytes → Bytes × Bytes → (ℕ → Ptr) → Cmd (State K) (Unit {0})
  load_from [] old fresh s = done tt s
  load_from (l ∷ ls) old fresh s =
      let kv = get_key_value (split_line l) old in
      let skip = load_from ls kv fresh s in
      let take : Run (State K) Unit =
        bind_run (insert_element (fresh 0) (stoi kv.0) kv.1 s)
          λ _ s. load_from ls kv (behind_first fresh) s in
      if is_nil kv.0 || is_nil kv.1 then skip else take

  unfoldable pub load_file : Bytes → (ℕ → Ptr) → Cmd (State K) (Unit {0})
  load_file text fresh = load_from (lines text) ([], []) fresh
