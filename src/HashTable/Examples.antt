-- ===== src/HashTable/Examples.antt =====
-- One bucket with three items, whose keys are their tens; the next item makes the table grow_if_full.
use everything.Base.{ℕ, ◌*◌, ◌/◌, ◌≡◌, ◌≢◌, refl, arith, none, some, [], ◌∷◌, ◌⊎◌}
use mathlib.Core.List.{flatten}
use everything.Semaphore.{append, is_in_list}
use everything.HashTable.{
  HashTable, find_item, unlink_item, list_remove, hash_value, find, find_in_bucket, is_in_table,
  append_item, re_hash, insert, remove, grow_if_full, sanity_check, move_all, check_from,
  check_bucket, move_bucket,
}
use everything.HashTable.Layout.{Legal}
use everything.HashTable.Growth.{ReHashed, re_hash-ReHashed}
use everything.HashTable.Lookup.{item_under}
use everything.HashTable.Insertion.{Inserted, insert-Refines}
use everything.HashTable.Removal.{Removed, remove-Refines}
use everything.HashTable.Iterator.Walk.{Walked, walk-Walked}

abbrev tens : ℕ → ℕ
tens item = item / 10

abbrev seventh : ℕ → ℕ
seventh key = key * 7

abbrev three : HashTable
three = record { buckets = (10 ∷ 25 ∷ 31 ∷ []) ∷ []; num_buckets = 1; num_items = 3 }

three-Legal : Legal tens seventh three
unfolding find_item flatten
three-Legal = record {
  some_bucket = omega arith;
  stored = refl;
  placed = ((refl, (refl, (refl, tt))), (refl, (refl, (refl, tt))), tt);
  counted = refl;
}

re_hash-ReHashed_example : ReHashed tens seventh three (re_hash tens seventh three)
re_hash-ReHashed_example = re_hash-ReHashed tens seventh three three-Legal

insert-Refines_example :
    ((item_under tens seventh three 4 ≡ none)
      × Inserted tens seventh three 47 (insert tens seventh three 47))
    ⊎ ((item_under tens seventh three 4 ≢ none) × (insert tens seventh three 47 ≡ none))
insert-Refines_example = insert-Refines tens seventh three 47 three-Legal

remove-Refines_example :
    Removed tens seventh three 2 (remove tens seventh three 2)
    ⊎ ((item_under tens seventh three 2 ≡ none) × (remove tens seventh three 2 ≡ none))
remove-Refines_example = remove-Refines tens seventh three 2 three-Legal

walk-Walked_example : Walked tens seventh three
walk-Walked_example = walk-Walked tens seventh three three-Legal

program : Unit {0}
unfolding find_item unlink_item list_remove hash_value find_in_bucket find is_in_table append_item
    move_bucket move_all check_bucket check_from sanity_check re_hash grow_if_full insert remove
    append is_in_list
program = tt

insert_grows :
    insert tens seventh three 47
    ≡ some (record {
      buckets = (47 ∷ []) ∷ (31 ∷ []) ∷ (25 ∷ []) ∷ (10 ∷ []) ∷ [];
      num_buckets = 4;
      num_items = 4;
    })
unfolding program
insert_grows = refl

insert_refused : insert tens seventh three 28 ≡ none
unfolding program
insert_refused = refl
