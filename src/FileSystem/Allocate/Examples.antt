-- ===== src/FileSystem/Allocate/Examples.antt =====
-- Allocate on a small disk: two groups of eight fragments, and a file of the fragments 0 and 1.
use everything.Base.{zero, suc, ◌≡◌, refl, some, [], ◌∷◌, ◌≤◌, arith}
use everything.FileSystem.TwoGroups.{two_groups, small_file, two_groups-Ready, small_file-reads}
use everything.FileSystem.Allocate.{Allocation, allocate, fragments_for}
use everything.FileSystem.Allocate.Growth.{Together}
use everything.FileSystem.Allocate.Whole.{Outcome, allocate-Outcome}

small_file-Together : Together 8 (omega arith) (0 ∷ 1 ∷ []) 1
small_file-Together zero f lo hi at = absurd (omega arith)
small_file-Together (suc zero) f lo hi at = let it : 1 ≡ f = cc in rw (← it) (refl, omega arith)
small_file-Together (suc (suc zero)) f lo hi at =
    let it : 0 ≡ f = cc in rw (← it) (refl, omega arith)
small_file-Together (suc (suc (suc k))) f lo hi at = absurd (omega arith)

five : fragments_for 5000 ≤ 128
unfolding fragments_for
five = omega arith

-- Five fragments: the old two are given back and taken again with the rest of their block.
allocate-Outcome_example :
    (a : Allocation) × (allocate 8 small_file [] two_groups 5000 ≡ some a)
    × Outcome 8 (omega arith) small_file [] (0 ∷ 1 ∷ []) 1 two_groups 5000 a
allocate-Outcome_example =
    allocate-Outcome 8 (omega arith) small_file [] (0 ∷ 1 ∷ []) two_groups 1 5000 refl
      two_groups-Ready small_file-reads five small_file-Together
