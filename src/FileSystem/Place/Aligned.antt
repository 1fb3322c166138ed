-- ===== src/FileSystem/Place/Aligned.antt =====
-- NextAlignedFragments.
use everything.Base.{
  ℕ, zero, suc, ◌+◌, ◌-◌, ◌*◌, ◌≤◌, ◌<◌, ◌≡◌, refl, ap, ◌∙◌, ◌⊎◌, inl, inr, Option, some, List, [],
  arith,
}
use native.Mathlib.Decide.{dec_lt}
use native.Mathlib.Numerals.{add-one}
use everything.Bitmap.{Bitmap}
use everything.Bitmap.View.{IsValid}
use everything.FileSystem.Place.Run.{Free, Taken, FirstRun, NoRun, Tried, try_starts-Tried}
use everything.FileSystem.Place.{
  consecutive, try_starts, or_next, try_windows, next_aligned_fragments,
}

-- `n` fragments from `p` on lie in window number `q`, which lies below `len`.
pub record InWindow (len window n q p : ℕ) : Type 0 where
  pub from : q * window ≤ p
  pub to : p + n ≤ q * window + window
  pub below : q * window + window ≤ len

-- The result is the first run of `n` free fragments that lies in one window.
pub record AlignedRun (b : Bitmap) (len window n : ℕ) (ret : List ℕ) : Type 0 where
  pub start : ℕ
  pub index : ℕ
  pub fragments : ret ≡ consecutive n start
  pub inside : InWindow len window n index start
  pub free : Free b start n
  pub first : (q p : ℕ) → InWindow len window n q p → p < start → Taken b p n

-- No window has such a run.
pub record NoAlignedRun (b : Bitmap) (len window n : ℕ) (ret : List ℕ) : Type 0 where
  pub empty : ret ≡ []
  pub taken : (q p : ℕ) → InWindow len window n q p → Taken b p n

abbrev pub Aligned : Bitmap → ℕ → ℕ → ℕ → List ℕ → Type 0
Aligned b len window n ret = AlignedRun b len window n ret ⊎ NoAlignedRun b len window n ret

window_mono : (w q k : ℕ) → q ≤ k → q * w ≤ k * w
window_mono w q k h = grind arith

-- A window index below which a run starts.
index-le : (w q k p n : ℕ) → 0 < n → q * w ≤ p → p + n ≤ k * w + w → q ≤ k
index-le w q k p n pos lo hi = elim (dec_lt k q) [
  | yes h ↦ absurd (omega (arith, window_mono w (suc k) q h))
  | no h ↦ omega arith
]

or_next-consecutive :
    (n p : ℕ) (rest : Option (List ℕ))
    → 0 < n
    → or_next (consecutive n p) rest ≡ some (consecutive n p)
unfolding or_next consecutive
or_next-consecutive zero p rest h = absurd (omega arith)
or_next-consecutive (suc n) p rest h = refl

module _ (b : Bitmap) (len window n : ℕ) (v : IsValid b) (fits : len ≤ b.num_bits) (pos : 0 < n)
    (small : n ≤ window) where
  abbrev Passed : ℕ → Type 0
  Passed i = (q p : ℕ) → InWindow len window n q p → q < i → Taken b p n

  found :
      (i : ℕ) {ret : List ℕ}
      → i * window + window ≤ len
      → Passed i
      → FirstRun b (i * window) (window + 1 - n) n ret
      → AlignedRun b len window n ret
  found i below passed f = record {
    start = f.start;
    index = i;
    fragments = f.fragments;
    inside = record { from = f.from; to = omega (arith, f.to); below = below };
    free = f.free;
    first = λ q p w lt. elim (dec_lt q i) [
      | yes h ↦ passed q p w h
      | no h ↦ f.first p (omega (arith, w.from, window_mono window i q (omega arith))) lt
    ];
  }

  pass :
      (i : ℕ) {ret : List ℕ}
      → Passed i
      → NoRun b (i * window) (window + 1 - n) n ret
      → Passed (i + 1)
  pass i passed f q p w lt = elim (dec_lt q i) [
    | yes h ↦ passed q p w h
    | no h ↦
        let e : q ≡ i = omega arith in
        f.taken p (omega (arith, w.from, ap (λ (t : ℕ). t * window) e))
          (omega (arith, w.to, ap (λ (t : ℕ). t * window) e))
  ]

  finished : (i : ℕ) → len < i * window + window → Passed i → NoAlignedRun b len window n []
  finished i over passed = record {
    empty = refl;
    taken = λ q p w. elim (dec_lt q i) [
      | yes h ↦ passed q p w h
      | no h ↦ absurd (omega (arith, w.below, window_mono window i q (omega arith)))
    ];
  }

  try_windows-stop :
      (fuel i : ℕ) → len < i + window → try_windows (suc fuel) i len b window n ≡ some []
  unfolding try_windows
  try_windows-stop fuel i over = ground arith

  try_windows-found :
      (fuel i p : ℕ) {ret : List ℕ}
      → i + window ≤ len
      → try_starts (window + 1 - n) i n b ≡ some ret
      → ret ≡ consecutive n p
      → try_windows (suc fuel) i len b window n ≡ some ret
  unfolding try_windows
  try_windows-found fuel i p {ret} below e found =
      ground (
        arith,
        or_next-consecutive n p (try_windows fuel (i + window) len b window n) pos,
        e,
        found,
      )

  try_windows-next :
      (fuel i : ℕ) {ret : List ℕ}
      → i + window ≤ len
      → try_starts (window + 1 - n) i n b ≡ some ret
      → ret ≡ []
      → try_windows (suc fuel) i len b window n ≡ try_windows fuel (i + window) len b window n
  unfolding try_windows or_next
  try_windows-next fuel i below e none_here = ground arith

  Search : ℕ → ℕ → Type 0
  Search fuel i =
      (ret : List ℕ) × (try_windows fuel i len b window n ≡ some ret) × Aligned b len window n ret

  try_windows-Aligned : (fuel i : ℕ) → len < i * window + fuel → Passed i → Search fuel (i * window)
  unfolding Search
  try_windows-Aligned zero i enough passed =
      ([], unfold try_windows in refl, inr (finished i (omega arith) passed))
  try_windows-Aligned (suc fuel) i enough passed = elim (dec_lt len (i * window + window)) [
    | yes over ↦ ([], try_windows-stop fuel (i * window) over, inr (finished i over passed))
    | no below ↦
        let (ret, done, tried) =
          try_starts-Tried (window + 1 - n) (i * window) n b v (omega arith) in
        go ret done tried (omega arith) (try_windows-Aligned fuel (suc i) (omega arith))
  ]
    where
      go :
          (ret : List ℕ)
          → try_starts (window + 1 - n) (i * window) n b ≡ some ret
          → Tried b (i * window) (window + 1 - n) n ret
          → i * window + window ≤ len
          → (Passed (suc i) → Search fuel (suc i * window))
          → Search (suc fuel) (i * window)
      go ret done (inl f) below later = (
        ret,
        try_windows-found fuel (i * window) f.start below done f.fragments,
        inl (found i below passed f),
      )
      go ret done (inr f) below later =
          let (ret', e, a) = later (rw (← add-one i) (pass i passed f)) in
          (
            ret',
            try_windows-next fuel (i * window) below done f.empty
                ∙ ap (λ (t : ℕ). try_windows fuel t len b window n) (omega arith)
                ∙ e,
            a,
          )

  -- For a free map of at least len bits and 0 < n, n at most window, NextAlignedFragments returns;
  -- of all runs of n free fragments that lie within one of the windows (counted from 0 in steps of
  -- window, none past len) it gives the first, or nothing, and then there is none.
  pub next_aligned_fragments-Aligned :
      (ret : List ℕ) × (next_aligned_fragments len b window n ≡ some ret)
      × Aligned b len window n ret
  unfolding next_aligned_fragments Search
  next_aligned_fragments-Aligned =
      let (ret, e, a) =
        try_windows-Aligned (len + 1) 0 (omega arith) (λ q p w h. absurd (omega arith)) in
      (ret, ap (λ (t : ℕ). try_windows (len + 1) t len b window n) (omega arith) ∙ e, a)
