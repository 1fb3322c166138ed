-- ===== src/Interrupt/Due.antt =====
-- The pending list: SortedList::Insert and the interrupts that are due.
use everything.Base.{
  ℕ, ◌≤◌, ◌<◌, ◌≡◌, refl, ◌⊎◌, inl, inr, true, false, List, [], ◌∷◌, arith, length, ltb, leb,
  if◌then◌else◌, Bool-cases,
}
use everything.Interrupt.{PendingInterrupt, Call, to_schedule, to_yield, insert, first_due}

module _ {A : Type 0} where
  -- No interrupt of the list comes before time `t`.
  abbrev pub AllFrom : ℕ → List (PendingInterrupt A) → Type 0
  AllFrom t [] = Unit {0}
  AllFrom t (x ∷ xs) = (t ≤ x.at) × AllFrom t xs

  -- In order of time.
  abbrev pub Sorted : List (PendingInterrupt A) → Type 0
  Sorted [] = Unit {0}
  Sorted (x ∷ xs) = AllFrom x.at xs × Sorted xs

  -- The interrupts that are due at time `now`, and the others.
  abbrev pub due : ℕ → List (PendingInterrupt A) → List (PendingInterrupt A)
  due now [] = []
  due now (x ∷ xs) = if leb x.at now then x ∷ due now xs else due now xs

  AllFrom-mono : (s t : ℕ) (xs : List (PendingInterrupt A)) → s ≤ t → AllFrom t xs → AllFrom s xs
  AllFrom-mono s t [] h a = tt
  AllFrom-mono s t (x ∷ xs) h (p, a) = (omega arith, AllFrom-mono s t xs h a)

  insert-AllFrom :
      (t : ℕ) (x : PendingInterrupt A) (xs : List (PendingInterrupt A))
      → t ≤ x.at
      → AllFrom t xs
      → AllFrom t (insert x xs)
  unfolding insert
  insert-AllFrom t x [] h a = (h, tt)
  insert-AllFrom t x (y ∷ xs) h (p, a) = elim (Bool-cases (ltb x.at y.at)) [
    | inl e ↦ rw e (h, (p, a))
    | inr e ↦ rw e (p, insert-AllFrom t x xs h a)
  ]

  pub insert-Sorted :
      (x : PendingInterrupt A) (xs : List (PendingInterrupt A)) → Sorted xs → Sorted (insert x xs)
  unfolding insert
  insert-Sorted x [] s = (tt, tt)
  insert-Sorted x (y ∷ xs) (a, s) = elim (Bool-cases (ltb x.at y.at)) [
    | inl e ↦
        let before : x.at ≤ y.at = ground arith in
        rw e ((before, AllFrom-mono x.at y.at xs before a), (a, s))
    | inr e ↦ rw e (insert-AllFrom y.at x xs (ground arith) a, insert-Sorted x xs s)
  ]

  -- An interrupt that is not due leaves the others that are.
  pub due-insert :
      (now : ℕ) (x : PendingInterrupt A) (xs : List (PendingInterrupt A))
      → now < x.at
      → due now (insert x xs) ≡ due now xs
  unfolding insert
  due-insert now x [] h = let e : leb x.at now ≡ false = ground arith in rw e refl
  due-insert now x (y ∷ xs) h = elim (Bool-cases (ltb x.at y.at)) [
    | inl e ↦ let late : leb x.at now ≡ false = ground arith in rw (e, late) refl
    | inr e ↦ rw (e, due-insert now x xs h) refl
  ]

  pub due-late :
      (now t : ℕ) (xs : List (PendingInterrupt A)) → now < t → AllFrom t xs → due now xs ≡ []
  due-late now t [] h a = refl
  due-late now t (x ∷ xs) h (p, a) =
      let e : leb x.at now ≡ false = ground arith in rw (e, due-late now t xs h a) refl

  pub length-due : (now : ℕ) (xs : List (PendingInterrupt A)) → length (due now xs) ≤ length xs
  length-due now [] = omega arith
  length-due now (x ∷ xs) = elim (Bool-cases (leb x.at now)) [
    | inl e ↦ rw e (omega (arith, length-due now xs))
    | inr e ↦ rw e (omega (arith, length-due now xs))
  ]

  -- A handler schedules nothing for the present moment.
  abbrev pub Ahead : List (Call A) → Type 0
  Ahead [] = Unit {0}
  Ahead (to_schedule to_call from_now type ∷ calls) = (0 < from_now) × Ahead calls
  Ahead (to_yield ∷ calls) = Ahead calls

  abbrev pub In : PendingInterrupt A → List (PendingInterrupt A) → Type 0
  In p [] = ⊥
  In p (x ∷ xs) = (x ≡ p) ⊎ In p xs

  pub In-insert :
      (p x : PendingInterrupt A) (xs : List (PendingInterrupt A)) → In p xs → In p (insert x xs)
  unfolding insert
  In-insert p x [] m = absurd m
  In-insert p x (y ∷ xs) m = elim (Bool-cases (ltb x.at y.at)) [
    | inl e ↦ rw e (inr m)
    | inr e ↦ rw e (elim m [ inl here ↦ inl here | inr there ↦ inr (In-insert p x xs there) ])
  ]

  pub first_due-split :
      (now : ℕ) (xs : List (PendingInterrupt A))
      → first_due now xs ≡ true
      → (next : PendingInterrupt A) × (rest : List (PendingInterrupt A)) × (xs ≡ next ∷ rest)
        × (leb next.at now ≡ true)
  unfolding first_due
  first_due-split now [] e = absurd cc
  first_due-split now (x ∷ xs) e = (x, xs, refl, e)

  pub first_due-none :
      (now : ℕ) (xs : List (PendingInterrupt A))
      → Sorted xs
      → first_due now xs ≡ false
      → due now xs ≡ []
  unfolding first_due
  first_due-none now [] s e = refl
  first_due-none now (x ∷ xs) (a, s) e = rw (e, due-late now x.at xs (ground arith) a) refl
