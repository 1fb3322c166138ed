-- ===== src/FileSystem/Place/Run.antt =====
-- The search for a run of free fragments within one window of NextAlignedFragments.
use everything.Base.{
  ℕ, zero, suc, ◌+◌, ◌≤◌, ◌<◌, ◌≡◌, refl, ap, ◌⊎◌, inl, inr, true, false, some, List, [], arith,
  Bool-cases,
}
use native.Mathlib.Decide.{dec_lt}
use everything.Bitmap.{Bitmap}
use everything.Bitmap.View.{IsValid, is_marked, test-is_marked}
use everything.FileSystem.Place.{available, consecutive, try_starts}

-- The `n` fragments from `p` on are free.
abbrev pub Free : Bitmap → ℕ → ℕ → Type 0
Free b p n = (j : ℕ) → p ≤ j → j < p + n → is_marked b j ≡ false

-- One of the `n` fragments from `p` on is in use.
pub record Taken (b : Bitmap) (p n : ℕ) : Type 0 where
  pub at : ℕ
  pub from : p ≤ at
  pub to : at < p + n
  pub used : is_marked b at ≡ true

available-Free :
    (n p : ℕ) (b : Bitmap)
    → IsValid b
    → p + n ≤ b.num_bits
    → ((available n p b ≡ some true) × Free b p n) ⊎ ((available n p b ≡ some false) × Taken b p n)
unfolding available
available-Free zero p b v h = inl (refl, λ j lo hi. absurd (omega arith))
available-Free (suc n) p b v h = elim (Bool-cases (is_marked b p)) [
  | inl used ↦ inr (
    rw (test-is_marked b p v (omega arith), used),
    record { at = p; from = omega arith; to = omega arith; used = used },
  )
  | inr free ↦ elim (available-Free n (p + 1) b v (omega arith)) [
    | inl (e, all) ↦ inl (
      rw (test-is_marked b p v (omega arith), free, e),
      λ j lo hi. ground (arith, all j, free, ap (is_marked b) {x = p} {y = j}),
    )
    | inr (e, t) ↦ inr (
      rw (test-is_marked b p v (omega arith), free, e),
      record { at = t.at; from = omega (arith, t.from); to = omega (arith, t.to); used = t.used },
    )
  ]
]

-- The search of one window gave the first free run of `n` fragments that starts in [j, j + left).
pub record FirstRun (b : Bitmap) (j left n : ℕ) (ret : List ℕ) : Type 0 where
  pub start : ℕ
  pub fragments : ret ≡ consecutive n start
  pub from : j ≤ start
  pub to : start < j + left
  pub free : Free b start n
  pub first : (k : ℕ) → j ≤ k → k < start → Taken b k n

pub record NoRun (b : Bitmap) (j left n : ℕ) (ret : List ℕ) : Type 0 where
  pub empty : ret ≡ []
  pub taken : (k : ℕ) → j ≤ k → k < j + left → Taken b k n

abbrev pub Tried : Bitmap → ℕ → ℕ → ℕ → List ℕ → Type 0
Tried b j left n ret = FirstRun b j left n ret ⊎ NoRun b j left n ret

Taken-at : {b : Bitmap} {p q n : ℕ} → p ≡ q → Taken b p n → Taken b q n
Taken-at e t = record {
  at = t.at;
  from = omega (arith, t.from);
  to = omega (arith, t.to);
  used = t.used;
}

pub try_starts-Tried :
    (left j n : ℕ) (b : Bitmap)
    → IsValid b
    → j + left + n ≤ suc b.num_bits
    → (ret : List ℕ) × (try_starts left j n b ≡ some ret) × Tried b j left n ret
unfolding try_starts
try_starts-Tried zero j n b v h =
    ([], refl, inr (record { empty = refl; taken = λ k lo hi. absurd (omega arith) }))
try_starts-Tried (suc left) j n b v h = elim (available-Free n j b v (omega arith)) [
  | inl (e, free) ↦ (
    consecutive n j,
    rw e,
    inl (record {
      start = j;
      fragments = refl;
      from = omega arith;
      to = omega arith;
      free = free;
      first = λ k lo hi. absurd (omega arith);
    }),
  )
  | inr (e, t) ↦
      let (ret, done, tried) = try_starts-Tried left (j + 1) n b v (omega arith) in
      (ret, rw (e, done), widen t tried)
]
  where
    later :
        {m : ℕ}
        → Taken b j n
        → ((k : ℕ) → j + 1 ≤ k → k < m → Taken b k n)
        → (k : ℕ) → j ≤ k
        → k < m
        → Taken b k n
    later t rest k lo hi = elim (dec_lt j k) [
      | yes p ↦ rest k (omega arith) hi
      | no p ↦ Taken-at (omega arith) t
    ]

    widen : {ret : List ℕ} → Taken b j n → Tried b (j + 1) left n ret → Tried b j (suc left) n ret
    widen {ret} t (inl f) = inl (record {
      start = f.start;
      fragments = f.fragments;
      from = omega (arith, f.from);
      to = omega (arith, f.to);
      free = f.free;
      first = later t f.first;
    })
    widen {ret} t (inr f) = inr (record {
      empty = f.empty;
      taken = λ k lo hi. later t (λ l low high. f.taken l low (omega arith)) k lo hi;
    })
