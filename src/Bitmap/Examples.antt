-- ===== src/Bitmap/Examples.antt =====
-- Runs of lib/bitmap.cc on small bitmaps.
use everything.Base.{◌≡◌, refl, false, some, [], ◌∷◌, arith}
use everything.Bitmap.{
  Bitmap, test, mark, clear, clear_from, new, find_from, find_and_set, num_clear,
}
use everything.Bitmap.View.{IsValid, test-is_marked}
use everything.Bitmap.Search.{Searched, find_and_set-Searched, count_clear, num_clear-count}

-- Indices 0 and 2 of five are marked.
abbrev five : Bitmap
five = record { num_bits = 5; num_words = 1; map = 5 ∷ [] }

abbrev five_after : Bitmap
five_after = record { num_bits = 5; num_words = 1; map = 7 ∷ [] }

-- 40 indices in two words, all marked but number 33.
abbrev forty : Bitmap
forty = record { num_bits = 40; num_words = 2; map = 4294967295 ∷ 253 ∷ [] }

five-IsValid : IsValid five
five-IsValid = record { sized = refl; stored = refl }

forty-IsValid : IsValid forty
forty-IsValid = record { sized = refl; stored = refl }

five_found : find_and_set five ≡ some (some 1, five_after)
unfolding find_and_set find_from test mark
five_found = refl

new_small : new 3 ≡ some (record { num_bits = 3; num_words = 1; map = 0 ∷ [] })
unfolding new clear_from clear test
new_small = refl

find_and_set-Searched_example : Searched forty (find_and_set forty)
find_and_set-Searched_example = find_and_set-Searched forty forty-IsValid

num_clear-count_example : num_clear forty ≡ some (count_clear forty 40)
num_clear-count_example = num_clear-count forty forty-IsValid

test-is_marked_example : test forty 33 ≡ some false
test-is_marked_example = test-is_marked forty 33 forty-IsValid (omega arith)
