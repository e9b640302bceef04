-- ===== src/Examples/Items.antt =====
-- Skip lists (skiplist/skiplist.h) of texts: one as it is made, and one that holds an item.
use co_kv.Prelude.{
  ℕ, ◌≡◌, ◌≢◌, ◌+◌, refl, sym, ◌∙◌, none, some, List, [], ◌∷◌, ◌++◌, arith, min, if◌then◌else◌,
}
use co_kv.Prelude.Run.{done}
use co_kv.Text.{bytes_order, eq_bytes}
use co_kv.SkipList.Memory.{Bytes, Ptr, null, State}
use co_kv.SkipList.Ops.{
  construct, destruct, get_element, insert_element, delete_element, get_random_level,
}
use co_kv.SkipList.Cells.{Cell, has}
use co_kv.SkipList.Sorted.{lookup, before, from}
use co_kv.SkipList.Inv.{IsSkipList}
use co_kv.SkipList.Random.{toss, with_draws, get_random_level-toss}
use co_kv.SkipList.Lookup.{value_or_empty, get_element-lookup}
use co_kv.SkipList.Insert.{new_cell}
use co_kv.SkipList.Insert.Correct.{insert_element-IsSkipList}
use co_kv.SkipList.Delete.Result.{delete_element-IsSkipList}
use co_kv.SkipList.Lifetime.{header_cell, construct-IsSkipList, destruct-freed}
use co_kv.SkipList.Dict.{
  empty, put, drop, Implements, construct-Implements, insert_element-Dict, delete_element-Dict,
}

abbrev draws : List ℕ
draws = 1 ∷ 2 ∷ 3 ∷ 5 ∷ 4 ∷ []

abbrev pub no_items : State Bytes
no_items = construct 1 [] 6 draws

abbrev pub apple : Bytes
apple = 97 ∷ []

abbrev pub red : Bytes
red = 114 ∷ []

abbrev pear : Bytes
pear = 112 ∷ []

pub one_ne_null : 1 ≢ null
one_ne_null = ground arith

pub two_ne_null : 2 ≢ null
two_ne_null = ground arith

pub no_items-Implements : Implements no_items empty
no_items-Implements = construct-Implements 1 [] 6 draws one_ne_null

pub unused : no_items.node 2 ≡ none
unfolding construct
unused = refl

draws-toss : toss draws ≡ some (1, 3 ∷ 5 ∷ 4 ∷ [])
unfolding toss
draws-toss = refl

pub no_items_toss : toss no_items.draws ≡ some (1, 3 ∷ 5 ∷ 4 ∷ [])
unfolding construct
no_items_toss = draws-toss

insert_element-Dict_example :
    (s' : State Bytes) × (insert_element 2 apple red no_items ≡ done 0 s')
    × Implements s' (put empty apple red)
    × (s'.draws ≡ 3 ∷ 5 ∷ 4 ∷ [])
insert_element-Dict_example =
    insert_element-Dict no_items-Implements 2 apple red 1 (3 ∷ 5 ∷ 4 ∷ []) refl two_ne_null unused
      no_items_toss

abbrev pub one_item : State Bytes
one_item =
    (insert_element-Dict no_items-Implements 2 apple red 1 (3 ∷ 5 ∷ 4 ∷ []) refl two_ne_null unused
      no_items_toss).0

pub one_item-Implements : Implements one_item (put empty apple red)
one_item-Implements =
    let (s, run, im, d) =
      insert_element-Dict no_items-Implements 2 apple red 1 (3 ∷ 5 ∷ 4 ∷ []) refl two_ne_null unused
        no_items_toss in
    im

apple_value : (put empty apple red).value apple ≡ some red
unfolding eq_bytes
apple_value = refl

delete_element-Dict_example :
    (s' : State Bytes) × (delete_element apple one_item ≡ done tt s')
    × Implements s' (drop (put empty apple red) apple)
    × ((q : Ptr) → one_item.node q ≡ none → s'.node q ≡ none)
    × (s'.draws ≡ one_item.draws)
delete_element-Dict_example = delete_element-Dict one_item-Implements apple red apple_value

lookup-apple : lookup apple one_item-Implements.cells ≡ some red
lookup-apple = sym (one_item-Implements.values apple) ∙ apple_value

pear_value : (put empty apple red).value pear ≡ none
unfolding eq_bytes
pear_value = refl

lookup-pear : lookup pear one_item-Implements.cells ≡ none
lookup-pear = sym (one_item-Implements.values pear) ∙ pear_value

get_element-lookup_example :
    get_element apple one_item
    ≡ done (value_or_empty (lookup apple one_item-Implements.cells)) one_item
get_element-lookup_example = get_element-lookup one_item-Implements.inv apple

pub no_items-IsSkipList : IsSkipList no_items (header_cell 1 [] 6) []
no_items-IsSkipList = construct-IsSkipList 1 [] 6 draws one_ne_null

pub nothing_there : lookup apple [] ≡ none
unfolding lookup
nothing_there = refl

insert_element-IsSkipList_example :
    (s' : State Bytes) × (insert_element 2 apple red no_items ≡ done 0 s')
    × IsSkipList s'
        (header_cell 1 [] 6)
        (before apple [] ++ new_cell 2 apple red (min (1 + 1) 6) ∷ from apple [])
    × (s'.draws ≡ 3 ∷ 5 ∷ 4 ∷ [])
    × (s'.max_level ≡ no_items.max_level)
    × ((q : Ptr) → q ≢ 2 → s'.node q ≡ no_items.node q)
unfolding construct
insert_element-IsSkipList_example =
    insert_element-IsSkipList no_items-IsSkipList 2 apple red 1 (3 ∷ 5 ∷ 4 ∷ []) nothing_there
      two_ne_null unused no_items_toss

delete_element-IsSkipList_example :
    (d : Cell Bytes) × (ds : List (Cell Bytes)) × (s' : State Bytes) × (delete_element apple
        one_item
      ≡ done tt s')
    × (before apple one_item-Implements.cells ++ d ∷ ds ≡ one_item-Implements.cells)
    × (d.key ≡ apple)
    × IsSkipList s' one_item-Implements.top (before apple one_item-Implements.cells ++ ds)
    × (s'.node d.ptr ≡ none)
    × ((q : Ptr) → q ≢ d.ptr → s'.node q ≡ one_item.node q)
    × (s'.draws ≡ one_item.draws)
delete_element-IsSkipList_example =
    delete_element-IsSkipList one_item-Implements.inv apple red lookup-apple

destruct-freed_example :
    (s' : State Bytes) × (destruct one_item ≡ done tt s')
    × ((p : Ptr)
        → s'.node p ≡ (
            if has p (one_item-Implements.top ∷ one_item-Implements.cells)
            then none
            else one_item.node p))
destruct-freed_example =
    destruct-freed one_item one_item-Implements.top one_item-Implements.cells
      one_item-Implements.inv

get_random_level-toss_example :
    get_random_level no_items
    ≡ done (min (1 + 1) no_items.max_level) (with_draws no_items (3 ∷ 5 ∷ 4 ∷ []))
get_random_level-toss_example = get_random_level-toss no_items 1 (3 ∷ 5 ∷ 4 ∷ []) no_items_toss
