-- ===== src/Examples/Loaded.antt =====
-- Skip lists (skiplist/skiplist.h) that are printed, loaded from a text, and seen as their pairs.
use co_kv.Prelude.{
  ℕ, ◌+◌, ◌≡◌, refl, some, none, List, [], ◌∷◌, arith, subst, ◌==◌, Bool-cases, inl, inr, false,
}
use mathlib.Core.Quot
use co_kv.Prelude.Run.{done}
use co_kv.Text.{bytes_order}
use co_kv.SkipList.Memory.{Bytes, Ptr, State}
use co_kv.SkipList.Random.{toss}
use co_kv.SkipList.Ops.{construct}
use co_kv.SkipList.Dict.{empty, put, Implements}
use co_kv.SkipList.Files.{colon, newline, is_nil, dump_file, load_file}
use co_kv.SkipList.Files.RoundTrip.{Free}
use co_kv.SkipList.Files.Loading.{Enough, Allocates}
use co_kv.SkipList.Files.Restore.{WritesAll, load_file-dump_file}
use co_kv.SkipList.Files.Display.{display_list, levels_text, display_list-levels}
use co_kv.Examples.Dump.{itself, stored, tower, stored-IsSkipList, low, low-Implements}
use co_kv.Examples.Items.{apple, red, one_item, one_item-Implements}

abbrev two_pairs : List (Bytes × Bytes)
two_pairs = (97 ∷ [], red) ∷ (98 ∷ [], apple) ∷ []

abbrev no_key : Bytes
no_key = []

display_list-levels_example :
    display_list itself stored
    ≡ done (levels_text itself (stored.skip_list_level + 1) 0 (tower ∷ [])) stored
display_list-levels_example = display_list-levels itself stored-IsSkipList

abbrev from_six : ℕ → Ptr
from_six n = n + 6

from_six-Allocates : Allocates from_six low
unfolding construct
from_six-Allocates = record {
  ne_null = λ k. ground arith;
  unused = λ k. (let e : (k + 6 == 5) ≡ false = ground arith in rw e refl);
  apart = λ k l e. omega arith;
}

one-WritesAll : WritesAll itself itself (put empty apple red)
one-WritesAll c h = elim (Bool-cases (bytes_order.eq apple c.key)) [
  | inl e ↦
      let k : apple ≡ c.key = (bytes_order.eq_iff apple c.key).0 e in
      let v : some red ≡ some c.value = rw e at h in
      let w : red ≡ c.value = cc in
      record {
        reads = refl;
        key_nonempty = subst (λ t. is_nil t ≡ false) k refl;
        value_nonempty = subst (λ t. is_nil t ≡ false) w refl;
        no_colon = subst (Free colon) k (refl, tt);
        no_newline = subst (Free newline) k (refl, tt);
        one_line = subst (Free newline) w (refl, tt);
      }
  | inr e ↦ (let f : none ≡ some c.value = rw e at h in cc)
]

one_toss : Enough 1 low.draws
unfolding Enough construct toss
one_toss = (0, [], refl, tt)

load_file-dump_file_example :
    (text : Bytes) × (dump_file itself one_item ≡ done text one_item)
    × ((t' : State Bytes) × (load_file itself text from_six low ≡ done tt t')
        × Implements t' (put empty apple red))
load_file-dump_file_example =
    load_file-dump_file itself itself one_item low (put empty apple red) from_six
      one_item-Implements one-WritesAll low-Implements one_toss from_six-Allocates
