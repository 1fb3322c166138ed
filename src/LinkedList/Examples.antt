-- ===== src/LinkedList/Examples.antt =====
-- A list of three items that were put on the heap out of order.
use everything.Base.{
  ℕ, ◌≡◌, refl, Option, none, some, List, [], ◌∷◌, ◌==◌, if◌then◌else◌, arith, ◌>>=◌,
}
use everything.Semaphore as Plain
use everything.HashTable.{list_remove}
use everything.LinkedList.{
  Heap, LinkedList, append, prepend, remove, sanity_check, is_in_list, search, link_last,
  link_first, remove_first, remove_front, remove_rest, take_out, count_to,
}
use everything.LinkedList.Chain.{Represents, Refines}
use everything.LinkedList.Ends.{append-Refines}
use everything.LinkedList.Removal.{remove-list_remove}
use everything.LinkedList.Sanity.{sanity_check-Represents}

abbrev heap : Heap
heap = record {
  cells = λ a.
      if a == 5
      then some (record { next = some 2; item = 70 })
      else if a == 2
      then some (record { next = some 3; item = 80 })
      else if a == 3
      then some (record { next = none; item = 90 })
      else none;
  fresh = 6;
}

abbrev list : LinkedList
list = record { first = some 5; last = some 3; num_in_list = 3 }

abbrev elements : List (ℕ × ℕ)
elements = (5, 70) ∷ (2, 80) ∷ (3, 90) ∷ []

list-Represents : Represents heap list elements
list-Represents = record {
  first = refl;
  last = refl;
  count = refl;
  linked = (
    refl,
    (omega arith, (omega arith, tt)),
    omega arith,
    (refl, (omega arith, tt), omega arith, (refl, tt, omega arith, tt)),
  );
}

append-Refines_example :
    Refines heap elements (Plain.append (70 ∷ 80 ∷ 90 ∷ []) 60) (append heap list 60)
append-Refines_example = append-Refines heap list 60 elements list-Represents

remove-list_remove_example :
    Refines heap elements (list_remove (70 ∷ 80 ∷ 90 ∷ []) 90) (remove heap list 90)
remove-list_remove_example = remove-list_remove heap list 90 elements list-Represents

sanity_check-Represents_example : sanity_check heap list ≡ some tt
sanity_check-Represents_example = sanity_check-Represents heap list elements list-Represents

program : Unit {0}
unfolding search is_in_list link_last append link_first prepend remove_front remove_first
    remove_rest take_out remove count_to sanity_check
program = tt

-- Item 90 leaves and item 60 comes, so that `last` has moved back and on again.
abbrev moved : Option (Option ℕ × ℕ)
moved = do (h, l) ← remove heap list 90; (h', l') ← append h l 60; some (l'.last, l'.num_in_list)

ends_move : moved ≡ some (some 6, 3)
unfolding program
ends_move = refl
