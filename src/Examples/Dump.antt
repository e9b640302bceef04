-- ===== src/Examples/Dump.antt =====
-- A skip list of texts in a file (skiplist/skiplist.h).
use co_kv.Prelude.{◌≡◌, refl, [], ◌∷◌, arith, none, some}
use co_kv.Prelude.Run.{done}
use co_kv.Text.{bytes_order}
use co_kv.SkipList.Memory.{Bytes, State}
use co_kv.SkipList.Cells.{Cell}
use co_kv.SkipList.Sorted.{before, from}
use co_kv.SkipList.Inv.{IsSkipList}
use co_kv.SkipList.Insert.Correct.{insert_element-IsSkipList}
use co_kv.SkipList.Ops.{construct}
use co_kv.SkipList.Random.{toss}
use co_kv.SkipList.Dict.{empty, put, Implements, construct-Implements, insert_element-Dict}
use co_kv.SkipList.Files.Canonical.{dump_file-Dict}
use co_kv.SkipList.Lifetime.{header_cell}
use co_kv.SkipList.Files.{dump_file}
use co_kv.Examples.Items.{
  no_items-IsSkipList, nothing_there, two_ne_null, unused, no_items_toss, apple, red, one_item,
  one_item-Implements,
}

abbrev pub itself : Bytes → Bytes
itself t = t

abbrev pub stored : State Bytes
stored =
    (insert_element-IsSkipList no_items-IsSkipList 2 apple red 1 (3 ∷ 5 ∷ 4 ∷ []) nothing_there
      two_ne_null unused no_items_toss).0

abbrev pub tower : Cell Bytes
tower = record { ptr = 2; key = apple; value = red; level = 2 }

pub stored-IsSkipList : IsSkipList stored (header_cell 1 [] 6) (tower ∷ [])
unfolding before from construct
stored-IsSkipList =
    (insert_element-IsSkipList no_items-IsSkipList 2 apple red 1 (3 ∷ 5 ∷ 4 ∷ []) nothing_there
      two_ne_null unused no_items_toss).2

-- The same item behind a tower of one level, elsewhere.
abbrev pub low : State Bytes
low = construct 5 [] 3 (4 ∷ [])

pub low-Implements : Implements low empty
low-Implements = construct-Implements 5 [] 3 (4 ∷ []) (ground arith)

low_unused : low.node 2 ≡ none
unfolding construct
low_unused = refl

low_toss : toss low.draws ≡ some (0, [])
unfolding construct toss
low_toss = refl

abbrev low_item : State Bytes
low_item =
    (insert_element-Dict low-Implements 2 apple red 0 [] refl two_ne_null low_unused low_toss).0

low_item-Implements : Implements low_item (put empty apple red)
low_item-Implements =
    (insert_element-Dict low-Implements 2 apple red 0 [] refl two_ne_null low_unused low_toss).2

dump_file-Dict_example :
    (text : Bytes) × (dump_file itself one_item ≡ done text one_item)
    × (dump_file itself low_item ≡ done text low_item)
dump_file-Dict_example =
    dump_file-Dict itself one_item low_item (put empty apple red) one_item-Implements
      low_item-Implements
