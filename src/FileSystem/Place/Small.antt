-- ===== src/FileSystem/Place/Small.antt =====
-- NextPlaceForSmallFragments, with the window of four fragments that Allocate passes.
use native.Mathlib.Decide.{dec_lt}
use everything.Base.{
  ℕ, zero, suc, ◌+◌, ◌≤◌, ◌<◌, ◌≡◌, refl, ◌∙◌, ◌⊎◌, inl, inr, Bool, true, false, Option, none, some,
  arith, Bool-cases, ◌==◌, if◌then◌else◌,
}
use everything.Bitmap.{Bitmap, test}
use everything.Bitmap.View.{IsValid, is_marked, test-is_marked}
use everything.FileSystem.Place.{Best, consider, scan, next_place_for_small_fragments}
use everything.FileSystem.Place.Run.{Free}
use everything.FileSystem.Place.Ladder.{Fits, Took, consider-Took, consider-some}

module _ (b : Bitmap) (len size : ℕ) (v : IsValid b) (inside : len ≤ b.num_bits) (pos : 0 < size)
    (small : size ≤ 4) (big : 4 < len) where
  -- The best run so far: none, and then no free run of `size` fragments starts before `last`; or one
  -- that is free.
  record Chosen (s : Best) : Type 0 where
    p : ℕ
    pos_is : s.minpos ≡ some p
    enough : size ≤ s.min
    fits : Fits len s.min p
    free : Free b p s.min

  record Nothing (s : Best) : Type 0 where
    unset : s.minpos ≡ none
    start : s.min ≡ len
    none_before : (p : ℕ) → Fits len size p → Free b p size → s.last ≤ p

  record Scanned (i : ℕ) (s : Best) : Type 0 where
    behind : s.last ≤ i
    run : (j : ℕ) → s.last ≤ j → j < i → is_marked b j ≡ false
    best : Nothing s ⊎ Chosen s
    tail : len < i → s.last ≡ i

  -- Fragment `i` is in use, or the map ends there.
  abbrev Stops : ℕ → Type 0
  Stops i = (i ≡ len) ⊎ (is_marked b i ≡ true)

  beyond :
      (i p : ℕ) → Stops i → i ≤ len → Fits len size p → Free b p size → ¬ (p + size ≤ i) → i + 1 ≤ p
  beyond i p stop h f free not_before = elim (dec_lt i p) [
    | yes lt ↦ omega arith
    | no le ↦ absurd (go le stop)
  ]
    where
      go : ¬ (i < p) → Stops i → ⊥
      go le (inl e) = not_before (rw e f.below)
      go le (inr used) = ground (arith, free i (omega arith) (omega arith))

  miss : (i : ℕ) (s : Best) → i < len → is_marked b i ≡ false → Scanned i s → Scanned (i + 1) s
  miss i s h free sc = record {
    behind = omega (arith, sc.behind);
    run = λ j lo hi. elim (dec_lt j i) [
      | yes lt ↦ sc.run j lo lt
      | no le ↦ let e : i ≡ j = omega arith in rw (← e) free
    ];
    best = sc.best;
    tail = λ over. absurd (omega arith);
  }

  -- The state after the tests at a stop.
  abbrev AfterHit : ℕ → Best → Type 0
  AfterHit i s' =
      ((s'.minpos ≡ none)
        × (s'.min ≡ len)
        × ((p : ℕ) → Fits len size p → Free b p size → i + 1 ≤ p))
      ⊎ Chosen s'

  hit_best : (i : ℕ) (s : Best) → i ≤ len → Stops i → Scanned i s → AfterHit i (consider 4 size i s)
  hit_best i s h stop sc = go (consider-Took size i s pos small sc.behind) sc.best
    where
      taken : (s' : Best) → Took size i s s' → AfterHit i s'
      taken s' t = rw t.result (
          inr (record {
            p = t.p;
            pos_is = refl;
            enough = t.enough;
            fits = record { block = t.fits.block; below = omega (arith, t.fits.below) };
            free = λ j lo hi. sc.run j (omega (arith, t.from)) (omega (arith, t.fits.below));
          }))

      go :
          (consider 4 size i s ≡ s) ⊎ Took size i s (consider 4 size i s)
          → Nothing s ⊎ Chosen s
          → AfterHit i (consider 4 size i s)
      go (inr t) best = taken (consider 4 size i s) t
      go (inl e) (inr c) = rw e (inr c)
      go (inl e) (inl n) = rw e (
          inl (
            n.unset,
            n.start,
            λ p f free. beyond i p stop h f free (λ before.
                consider-some len size i p s pos big n.start (n.none_before p f free)
                  (record { block = f.block; below = before }) (rw e n.unset)),
          ))

  -- What the search promises: a free run in one block of at least `size` fragments, with its length, or
  -- no free run of `size` fragments in one block exists.
  pub record SmallRun (result : Option ℕ × ℕ) : Type 0 where
    pub p : ℕ
    pub m : ℕ
    pub result_is : result ≡ (some p, m)
    pub enough : size ≤ m
    pub fits : Fits len m p
    pub free : Free b p m

  pub record NoSmallRun (result : Option ℕ × ℕ) : Type 0 where
    pub unset : result.0 ≡ none
    pub taken : (p : ℕ) → Fits len size p → ¬ Free b p size

  abbrev pub Placed : Option ℕ × ℕ → Type 0
  Placed r = SmallRun r ⊎ NoSmallRun r

  abbrev reads : ℕ → Option Bool
  reads i = if i == len then some true else test b i

  at_stop :
      (i : ℕ)
      → i ≤ len
      → ((reads i ≡ some true) × Stops i)
        ⊎ ((reads i ≡ some false) × (i < len) × (is_marked b i ≡ false))
  at_stop i h = elim (Bool-cases (i == len)) [
    | inl end ↦ inl (rw end, inl (ground arith))
    | inr inner ↦ elim (Bool-cases (is_marked b i)) [
      | inl used ↦ inl (rw (inner, test-is_marked b i v (ground arith), used), inr used)
      | inr free ↦ inr (rw (inner, test-is_marked b i v (ground arith), free), ground arith, free)
    ]
  ]

  abbrev stepped : ℕ → Best → Best
  stepped i s = record (consider 4 size i s) { last = i + 1 }

  scan-hit :
      (left i : ℕ) (s : Best)
      → reads i ≡ some true
      → scan (suc left) i len b 4 size s ≡ (
          if (consider 4 size i s).min == size
          then some ((consider 4 size i s).minpos, (consider 4 size i s).min)
          else scan left (i + 1) len b 4 size (stepped i s))
  unfolding scan
  scan-hit left i s r = rw r

  scan-miss :
      (left i : ℕ) (s : Best)
      → reads i ≡ some false
      → scan (suc left) i len b 4 size s ≡ scan left (i + 1) len b 4 size s
  unfolding scan
  scan-miss left i s r = rw r

  Chosen-Placed : (s : Best) → Chosen s → Placed (s.minpos, s.min)
  Chosen-Placed s c = inl (record {
    p = c.p;
    m = s.min;
    result_is = rw c.pos_is;
    enough = c.enough;
    fits = c.fits;
    free = c.free;
  })

  hit_next : (i : ℕ) (s' : Best) → AfterHit i s' → Scanned (i + 1) (record s' { last = i + 1 })
  hit_next i s' a = record {
    behind = omega arith;
    run = λ j lo hi. absurd (omega arith);
    best = go a;
    tail = λ over. refl;
  }
    where
      go :
          AfterHit i s' → Nothing (record s' { last = i + 1 }) ⊎ Chosen (record s' { last = i + 1 })
      go (inl (unset, start, before)) =
          inl (record { unset = unset; start = start; none_before = before })
      go (inr c) =
          inr
            (record { p = c.p; pos_is = c.pos_is; enough = c.enough; fits = c.fits; free = c.free })

  hit_stop : (i : ℕ) (s' : Best) → AfterHit i s' → s'.min ≡ size → Placed (s'.minpos, s'.min)
  hit_stop i s' (inl (unset, start, before)) e = absurd (omega arith)
  hit_stop i s' (inr c) e = Chosen-Placed s' c

  Result : ℕ → ℕ → Best → Type 0
  Result left i s = (r : Option ℕ × ℕ) × (scan left i len b 4 size s ≡ some r) × Placed r

  scan-Placed : (left i : ℕ) (s : Best) → i + left ≡ len + 1 → Scanned i s → Result left i s
  unfolding Result
  scan-Placed zero i s e sc = ((s.minpos, s.min), unfold scan in refl, last sc.best)
    where
      last : Nothing s ⊎ Chosen s → Placed (s.minpos, s.min)
      last (inl n) = inr (record {
        unset = n.unset;
        taken = λ p f free.
            absurd (omega (arith, n.none_before p f free, sc.tail (omega arith), f.below));
      })
      last (inr c) = Chosen-Placed s c
  scan-Placed (suc left) i s e sc =
      go (at_stop i (omega arith)) (λ s' sc'. scan-Placed left (i + 1) s' (omega arith) sc')
    where
      Later : Type 0
      Later = (s' : Best) → Scanned (i + 1) s' → Result left (i + 1) s'

      hit : reads i ≡ some true → AfterHit i (consider 4 size i s) → Later → Result (suc left) i s
      hit r a later = elim (Bool-cases ((consider 4 size i s).min == size)) [
        | inl done ↦ (_, scan-hit left i s r ∙ rw done, hit_stop i _ a (ground arith))
        | inr more ↦
            let (r', e', p) = later (stepped i s) (hit_next i _ a) in
            (r', scan-hit left i s r ∙ rw more e', p)
      ]

      go :
          ((reads i ≡ some true) × Stops i)
            ⊎ ((reads i ≡ some false) × (i < len) × (is_marked b i ≡ false))
          → Later
          → Result (suc left) i s
      go (inl (r, stop)) later = hit r (hit_best i s (omega arith) stop sc) later
      go (inr (r, lt, free)) later =
          let (r', e', p) = later s (miss i s lt free sc) in (r', scan-miss left i s r ∙ e', p)

  -- For a free map of at least len bits with window 4 and 0 < size, size at most 4, len above 4,
  -- NextPlaceForSmallFragments returns: a position and a count of at least size free fragments from
  -- it on, within one block and the first len fragments, or -1, and then no such run of size
  -- fragments exists.
  pub next_place_for_small_fragments-Placed :
      (r : Option ℕ × ℕ) × (next_place_for_small_fragments len b 4 size ≡ some r) × Placed r
  unfolding next_place_for_small_fragments Result
  next_place_for_small_fragments-Placed = scan-Placed (len + 1) 0 _ (omega arith) (record {
    behind = omega arith;
    run = λ j lo hi. absurd (omega arith);
    best = inl (record { unset = refl; start = refl; none_before = λ p f free. omega arith });
    tail = λ over. absurd (omega arith);
  })
