-- ===== src/Bitmap.antt =====
-- lib/bitmap.cc and lib/bitmap.h: an array of bits in 32-bit words.
-- An index is an `int` of the code that is not negative; a negative one fails the first ASSERT of
-- Mark, Clear and Test, as one past the end does. `none` is a failed ASSERT.
pub mod View
pub mod Search
mod Examples
use everything.Base.{
  ℕ, zero, suc, ◌+◌, ◌/◌, ◌%◌, ◌^◌, bit_and, bit_or, Bool, true, false, not, Option, none, some,
  List, ltb, ◌==◌, if◌then◌else◌, get_elem?, set, replicate, assert, ◌>>=◌, ◌>>◌,
}
use everything.Base.Bits.{complement}

abbrev pub bits_in_word : ℕ
bits_in_word = 32

-- The macro divRoundUp of lib/utility.h.
abbrev pub div_round_up : ℕ → ℕ → ℕ
div_round_up n s = n / s + (if ltb 0 (n % s) then 1 else 0)

pub record Bitmap : Type 0 where
  pub num_bits : ℕ
  pub num_words : ℕ
  pub map : List ℕ

-- Bitmap::Test
unfoldable pub test : Bitmap → ℕ → Option Bool
test b which = do
  assert (ltb which b.num_bits)
  word ← get_elem? b.map (which / bits_in_word)
  some (not (bit_and word (2 ^ (which % bits_in_word)) == 0))

-- Bitmap::Mark
pub mark : Bitmap → ℕ → Option Bitmap
mark b which = do
  assert (ltb which b.num_bits)
  word ← get_elem? b.map (which / bits_in_word)
  let b' = record b {
    map = set b.map (which / bits_in_word) (bit_or word (2 ^ (which % bits_in_word)));
  }
  now ← test b' which
  assert now
  some b'

-- Bitmap::Clear
pub clear : Bitmap → ℕ → Option Bitmap
clear b which = do
  assert (ltb which b.num_bits)
  word ← get_elem? b.map (which / bits_in_word)
  let b' = record b {
    map =
        set b.map (which / bits_in_word)
          (bit_and word (complement 32 (2 ^ (which % bits_in_word))));
  }
  now ← test b' which
  assert (not now)
  some b'

-- for (i = ...; i < numBits; i++) Clear(i), with the rounds left.
pub clear_from : ℕ → ℕ → Bitmap → Option Bitmap
clear_from zero i b = some b
clear_from (suc left) i b = do b' ← clear b i; clear_from left (i + 1) b'

-- Bitmap::Bitmap
pub new : ℕ → Option Bitmap
new num_items = do
  assert (ltb 0 num_items)
  let num_words = div_round_up num_items bits_in_word
  clear_from num_items 0
      (record { num_bits = num_items; num_words = num_words; map = replicate num_words 0 })

-- The loop of FindAndSet at `i`, with the rounds left. A result `none` inside is the -1.
pub find_from : ℕ → ℕ → Bitmap → Option (Option ℕ × Bitmap)
find_from zero i b = some (none, b)
find_from (suc left) i b = do
  used ← test b i
  let rest = find_from left (i + 1) b
  let found = mark b i >>= λ b'. some (some i, b')
  if used then rest else found

-- Bitmap::FindAndSet
pub find_and_set : Bitmap → Option (Option ℕ × Bitmap)
unfolding find_from
find_and_set b = find_from b.num_bits 0 b

-- The loop of NumClear.
pub num_clear_from : ℕ → ℕ → ℕ → Bitmap → Option ℕ
num_clear_from zero i count b = some count
num_clear_from (suc left) i count b = do
  used ← test b i
  num_clear_from left (i + 1) (if used then count else count + 1) b

-- Bitmap::NumClear
pub num_clear : Bitmap → Option ℕ
unfolding num_clear_from
num_clear b = num_clear_from b.num_bits 0 0 b
