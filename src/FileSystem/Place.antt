-- ===== src/FileSystem/Place.antt =====
-- The two searches of the free map in filesys/filesys.cc: NextAlignedFragments and
-- NextPlaceForSmallFragments. The bitmap is that of lib/bitmap.cc; `none` outside is a failed ASSERT
-- of Bitmap::Test.
pub mod Run
pub mod Ladder
pub mod Aligned
pub mod Small
mod Examples
use everything.Base.{
  ℕ, zero, suc, ◌+◌, ◌-◌, ◌*◌, ◌/◌, ◌%◌, Bool, true, false, Option, none, some, List, [], ◌∷◌, ltb,
  leb, ◌==◌, if◌then◌else◌, ◌>>=◌,
}
use everything.Bitmap.{Bitmap, test}

-- The loop over k: are the `left` fragments from `at` on free?
pub available : ℕ → ℕ → Bitmap → Option Bool
available zero at b = some true
available (suc left) at b = do
  used ← test b at
  let rest = available left (at + 1) b
  if used then some false else rest

-- ret[k] = j + k for k < to_align
unfoldable pub consecutive : ℕ → ℕ → List ℕ
consecutive zero j = []
consecutive (suc n) j = j ∷ consecutive n (j + 1)

-- The loop over j, with the rounds left; `[]` is `*ret_len = 0`.
pub try_starts : ℕ → ℕ → ℕ → Bitmap → Option (List ℕ)
try_starts zero j to_align b = some []
try_starts (suc left) j to_align b = do
  free ← available to_align j b
  let rest = try_starts left (j + 1) to_align b
  if free then some (consecutive to_align j) else rest

-- A window that gave fragments ends the search.
pub or_next : List ℕ → Option (List ℕ) → Option (List ℕ)
or_next [] rest = rest
or_next (x ∷ xs) rest = some (x ∷ xs)

-- The while loop over i, on fuel. A window that gives nothing is passed.
pub try_windows : ℕ → ℕ → ℕ → Bitmap → ℕ → ℕ → Option (List ℕ)
try_windows zero i bitmap_len b window to_align = some []
try_windows (suc fuel) i bitmap_len b window to_align =
    let rest = try_windows fuel (i + window) bitmap_len b window to_align in
    let round = try_starts (window + 1 - to_align) i to_align b >>= λ ret. or_next ret rest in
    if leb (i + window) bitmap_len then round else some []

-- FileSystem::NextAlignedFragments. Each round passes `window` fragments, so `bitmap_len` rounds and
-- one more are enough for a window of at least one fragment.
pub next_aligned_fragments : ℕ → Bitmap → ℕ → ℕ → Option (List ℕ)
unfolding try_windows
next_aligned_fragments bitmap_len b window to_align =
    try_windows (bitmap_len + 1) 0 bitmap_len b window to_align

-- The locals *min, minpos (`none` is -1) and last of NextPlaceForSmallFragments.
pub record Best : Type 0 where
  pub min : ℕ
  pub minpos : Option ℕ
  pub last : ℕ

-- `if (n < *min) { *min = n; minpos = p; }`
pub improve : ℕ → ℕ → Best → Best
improve n p s = if ltb n s.min then record s { min = n; minpos = some p } else s

-- What is done with the free run from `last` to `i`. The run never has `i` before `last`, so `i - last`
-- is the difference of the code.
pub consider : ℕ → ℕ → ℕ → Best → Best
unfolding improve
consider window size i s =
    if leb size (i - s.last)
    then (if i / window == s.last / window
        then improve (i - s.last) s.last s
        else if leb (s.last % window) (window - size)
        then improve (window - s.last % window) s.last s
        else if leb size (i % window)
        then improve (i % window) (i / window * window) s
        else if ltb 1 (i / window - s.last / window)
        then record s { min = window; minpos = some ((s.last / window + 1) * window) }
        else s)
    else s

-- The loop over i, with the rounds left; the result is the one returned and *min.
pub scan : ℕ → ℕ → ℕ → Bitmap → ℕ → ℕ → Best → Option (Option ℕ × ℕ)
scan zero i bitmap_len b window size s = some (s.minpos, s.min)
scan (suc left) i bitmap_len b window size s =
    let s' = consider window size i s in
    let more = scan left (i + 1) bitmap_len b window size s in
    let next = scan left (i + 1) bitmap_len b window size (record s' { last = i + 1 }) in
    let ended = if s'.min == size then some (s'.minpos, s'.min) else next in
    (if i == bitmap_len then some true else test b i) >>= λ used. if used then ended else more

-- FileSystem::NextPlaceForSmallFragments
pub next_place_for_small_fragments : ℕ → Bitmap → ℕ → ℕ → Option (Option ℕ × ℕ)
unfolding scan
next_place_for_small_fragments bitmap_len b window to_align =
    scan (bitmap_len + 1) 0 bitmap_len b window to_align
      (record { min = bitmap_len; minpos = none; last = 0 })
