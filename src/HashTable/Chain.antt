-- ===== src/HashTable/Chain.antt =====
-- The items of one bucket, or of several: what FindInBucket, Append and Remove do with them.
use everything.Base.{
  ℕ, ◌+◌, ◌≡◌, refl, ap, ◌∙◌, true, false, none, some, List, [], ◌∷◌, ◌++◌, ◌==◌, if◌then◌else◌,
  arith, length, Bool-cases, inl, inr,
}
use mathlib.Core.Option.{or_else}
use everything.Semaphore.{is_in_list}
use everything.HashTable.{find_item, unlink_item}

module _ (get_key : ℕ → ℕ) where
  -- No two items have one key.
  abbrev pub Distinct : List ℕ → Type 0
  Distinct [] = Unit {0}
  Distinct (x ∷ xs) = (find_item get_key xs (get_key x) ≡ none) × Distinct xs

  pub find_item-append :
      (xs ys : List ℕ) (k : ℕ)
      → find_item get_key (xs ++ ys) k ≡ or_else (find_item get_key xs k) (find_item get_key ys k)
  unfolding find_item or_else
  find_item-append [] ys k = refl
  find_item-append (x ∷ xs) ys k = ground (arith, find_item-append xs ys k)

  pub find_item-key :
      (xs : List ℕ) (k : ℕ) {x : ℕ} → find_item get_key xs k ≡ some x → get_key x ≡ k
  unfolding find_item
  find_item-key [] k e = cc
  find_item-key (y ∷ xs) k {x} e =
      ground (arith, find_item-key xs k {x = x}, ap get_key {x = y} {y = x})

  pub not_in_list :
      (xs : List ℕ) (x : ℕ) → find_item get_key xs (get_key x) ≡ none → is_in_list xs x ≡ false
  unfolding find_item is_in_list
  not_in_list [] x e = refl
  not_in_list (y ∷ xs) x e = ground (arith, not_in_list xs x, ap get_key {x = x} {y = y})

  pub found-in_list :
      (xs : List ℕ) (k : ℕ) {x : ℕ} → find_item get_key xs k ≡ some x → is_in_list xs x ≡ true
  unfolding find_item is_in_list
  found-in_list [] k e = cc
  found-in_list (y ∷ xs) k {x} e = ground (arith, found-in_list xs k {x = x})

  pub find_item-unlink :
      (xs : List ℕ) (k q : ℕ) {x : ℕ}
      → Distinct xs
      → find_item get_key xs k ≡ some x
      → find_item get_key (unlink_item xs x) q ≡ (if k == q then none else find_item get_key xs q)
  unfolding find_item unlink_item
  find_item-unlink [] k q d e = cc
  find_item-unlink (y ∷ xs) k q {x} (first, d) e = ground (
    arith,
    find_item-unlink xs k q {x = x} d,
    find_item-key xs k {x = x},
    first,
    ap get_key {x = x} {y = y},
    ap (find_item get_key xs) {x = q} {y = get_key y},
  )

  pub Distinct-snoc :
      (xs : List ℕ) (x : ℕ)
      → Distinct xs
      → find_item get_key xs (get_key x) ≡ none
      → Distinct (xs ++ x ∷ [])
  unfolding find_item or_else
  Distinct-snoc [] x d e = (refl, tt)
  Distinct-snoc (y ∷ xs) x (first, d) e = (
    find_item-append xs (x ∷ []) (get_key y) ∙ ground (arith, first, e),
    Distinct-snoc xs x d (ground (arith, e)),
  )

  pub unlink-missing :
      (xs : List ℕ) (x k : ℕ)
      → find_item get_key xs k ≡ none
      → find_item get_key (unlink_item xs x) k ≡ none
  unfolding find_item unlink_item
  unlink-missing [] x k e = refl
  unlink-missing (y ∷ xs) x k e = ground (arith, unlink-missing xs x k)

  pub Distinct-unlink : (xs : List ℕ) (x : ℕ) → Distinct xs → Distinct (unlink_item xs x)
  unfolding unlink_item
  Distinct-unlink [] x d = tt
  Distinct-unlink (y ∷ xs) x (first, d) = elim (Bool-cases (x == y)) [
    | inl e ↦ rw e d
    | inr e ↦ rw e (unlink-missing xs x (get_key y) first, Distinct-unlink xs x d)
  ]

  pub length-unlink :
      (xs : List ℕ) (x : ℕ) → is_in_list xs x ≡ true → length (unlink_item xs x) + 1 ≡ length xs
  unfolding unlink_item is_in_list
  length-unlink [] x e = cc
  length-unlink (y ∷ xs) x e = ground (arith, length-unlink xs x)

  pub find_item-snoc :
      (xs : List ℕ) (x q : ℕ)
      → find_item get_key xs (get_key x) ≡ none
      → find_item get_key (xs ++ x ∷ []) q
        ≡ (if get_key x == q then some x else find_item get_key xs q)
  unfolding find_item
  find_item-snoc [] x q e = ground arith
  find_item-snoc (y ∷ xs) x q e = ground (arith, find_item-snoc xs x q, e)
