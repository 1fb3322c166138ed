-- ===== src/FileSystem/Place/Ladder.antt =====
-- The tests that NextPlaceForSmallFragments makes on one free run, with a window of four fragments.
use everything.Base.{
  ℕ, ◌+◌, ◌-◌, ◌*◌, ◌/◌, ◌%◌, ◌≤◌, ◌<◌, ◌≡◌, ◌≢◌, refl, ◌⊎◌, inl, inr, none, some, arith,
  Bool-cases, leb, ltb, ◌==◌,
}
use everything.FileSystem.Place.{Best, improve, consider}

-- A run of `n` fragments at `p` in one block and within the first `len` fragments.
pub record Fits (len n p : ℕ) : Type 0 where
  pub block : p % 4 + n ≤ 4
  pub below : p + n ≤ len

abbrev took : ℕ → ℕ → Best → Best
took p m s = record s { min = m; minpos = some p }

-- What the ladder of tests can do to the best run so far.
pub record Took (size i : ℕ) (s s' : Best) : Type 0 where
  pub p : ℕ
  pub m : ℕ
  pub result : s' ≡ took p m s
  pub enough : size ≤ m
  pub from : s.last ≤ p
  pub fits : Fits i m p

improve-Took :
    (size i n p : ℕ) (s : Best)
    → size ≤ n
    → s.last ≤ p
    → Fits i n p
    → (improve n p s ≡ s) ⊎ Took size i s (improve n p s)
unfolding improve
improve-Took size i n p s h l f = elim (Bool-cases (ltb n s.min)) [
  | inl e ↦ inr (record { p = p; m = n; result = rw e; enough = h; from = l; fits = f })
  | inr e ↦ inl (rw e)
]

pub consider-Took :
    (size i : ℕ) (s : Best)
    → 0 < size
    → size ≤ 4
    → s.last ≤ i
    → (consider 4 size i s ≡ s) ⊎ Took size i s (consider 4 size i s)
unfolding consider
consider-Took size i s pos small l = elim (Bool-cases (leb size (i - s.last))) [
  | inr e ↦ inl (rw e)
  | inl e ↦ rw e (elim (Bool-cases (i / 4 == s.last / 4)) [
    | inl e₁ ↦
        rw e₁
          (improve-Took size i (i - s.last) s.last s (ground arith) (omega arith) (ground arith))
    | inr e₁ ↦ rw e₁ (elim (Bool-cases (leb (s.last % 4) (4 - size))) [
      | inl e₂ ↦ rw e₂ (
          improve-Took size i (4 - s.last % 4) s.last s (ground arith) (omega arith) (ground arith))
      | inr e₂ ↦ rw e₂ (elim (Bool-cases (leb size (i % 4))) [
        | inl e₃ ↦
            rw e₃ (
              improve-Took size i (i % 4) (i / 4 * 4) s (ground arith) (ground arith)
                (ground arith))
        | inr e₃ ↦ rw e₃ (elim (Bool-cases (ltb 1 (i / 4 - s.last / 4))) [
          | inl e₄ ↦ rw e₄ (
              inr (record {
                p = (s.last / 4 + 1) * 4;
                m = 4;
                result = refl;
                enough = small;
                from = omega arith;
                fits = ground arith;
              }))
          | inr e₄ ↦ inl (rw e₄)
        ])
      ])
    ])
  ])
]

-- A run that fits between `last` and `i` is seen, if nothing was found before.
pub consider-some :
    (len size i p : ℕ) (s : Best)
    → 0 < size
    → 4 < len
    → s.min ≡ len
    → s.last ≤ p
    → Fits i size p
    → (consider 4 size i s).minpos ≢ none
unfolding consider improve
consider-some len size i p s pos big m l f = ground arith
