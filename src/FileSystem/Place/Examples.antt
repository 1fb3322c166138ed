-- ===== src/FileSystem/Place/Examples.antt =====
-- Runs of the searches of filesys/filesys.cc.
use everything.Base.{ℕ, ◌≡◌, refl, Option, some, List, [], ◌∷◌, arith}
use everything.Bitmap.{Bitmap, test}
use everything.Bitmap.View.{IsValid}
use everything.FileSystem.Place.{
  next_aligned_fragments, next_place_for_small_fragments, try_windows, try_starts, available,
  or_next, consecutive, scan, consider, improve,
}
use everything.FileSystem.Place.Aligned.{Aligned, next_aligned_fragments-Aligned}
use everything.FileSystem.Place.Small.{Placed, next_place_for_small_fragments-Placed}

-- Three blocks: fragments 0, 1 and 6 are in use.
abbrev three_blocks : Bitmap
three_blocks = record { num_bits = 12; num_words = 1; map = 67 ∷ [] }

three_blocks-IsValid : IsValid three_blocks
three_blocks-IsValid = record { sized = refl; stored = refl }

whole_block : next_aligned_fragments 12 three_blocks 4 4 ≡ some (8 ∷ 9 ∷ 10 ∷ 11 ∷ [])
unfolding next_aligned_fragments try_windows try_starts available or_next consecutive test
whole_block = refl

two_fragments : next_place_for_small_fragments 12 three_blocks 4 2 ≡ some (some 2, 2)
unfolding next_place_for_small_fragments scan consider improve test
two_fragments = refl

next_aligned_fragments-Aligned_example :
    (ret : List ℕ) × (next_aligned_fragments 12 three_blocks 4 4 ≡ some ret)
    × Aligned three_blocks 12 4 4 ret
next_aligned_fragments-Aligned_example =
    next_aligned_fragments-Aligned three_blocks 12 4 4 three_blocks-IsValid (omega arith)
      (omega arith) (omega arith)

next_place_for_small_fragments-Placed_example :
    (r : Option ℕ × ℕ) × (next_place_for_small_fragments 12 three_blocks 4 2 ≡ some r)
    × Placed three_blocks 12 2 three_blocks-IsValid
        (omega arith)
        (omega arith)
        (omega arith)
        (omega arith)
        r
next_place_for_small_fragments-Placed_example =
    next_place_for_small_fragments-Placed three_blocks 12 2 three_blocks-IsValid (omega arith)
      (omega arith) (omega arith) (omega arith)
