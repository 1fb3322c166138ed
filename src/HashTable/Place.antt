-- ===== src/HashTable/Place.antt =====
-- Append to the bucket of a key, and the inner loop of ReHash.
use everything.Base.{
  ℕ, ◌+◌, ◌%◌, ◌<◌, ◌≡◌, refl, sym, ap, ◌∙◌, false, Option, none, some, List, [], ◌∷◌, ◌++◌, ◌==◌,
  if◌then◌else◌, arith, length, length-append, length-set, get_or, get_or-set_self, get_or-set_ne,
  get_elem?-eq-get_or, set, inl, inr, ◌⊎◌, Bool-cases,
}
use native.Mathlib.Decide.{ℕ_discrete}
use mathlib.Core.List.{flatten}
use mathlib.Core.Option.{or_else}
use everything.HashTable.{find_item, hash_value, append_item, move_bucket}
use everything.Semaphore.Items.{append-new}
use everything.HashTable.Chain.{Distinct, not_in_list, find_item-snoc, Distinct-snoc}
use everything.HashTable.Layout.{
  Placed, view, Placed-get, Placed-set, InBucket-snoc, length-flatten-set,
}

pub hash_value-mod : (hash : ℕ → ℕ) (n k : ℕ) → 0 < n → hash_value hash n k ≡ some (hash k % n)
unfolding hash_value
hash_value-mod hash n k h = let low : hash k % n < n = grind arith in ground arith

module _ (get_key hash : ℕ → ℕ) where
  -- The buckets with one item more.
  pub record Grown (n : ℕ) (bs : List (List ℕ)) (item : ℕ) (result : Option (List (List ℕ)))
      : Type 0 where
    pub out : List (List ℕ)
    pub returns : result ≡ some out
    pub stored : length out ≡ n
    pub placed : Placed get_key hash n 0 out
    pub count : length (flatten out) ≡ length (flatten bs) + 1
    pub views :
        (q : ℕ)
        → view get_key hash n out q
          ≡ (if get_key item == q then some item else view get_key hash n bs q)

  module _ (n : ℕ) (bs : List (List ℕ)) (item : ℕ) (pos : 0 < n) (stored : length bs ≡ n)
      (placed : Placed get_key hash n 0 bs)
      (fresh : view get_key hash n bs (get_key item) ≡ none) where
    at : ℕ
    at = hash (get_key item) % n

    at_low : at < length bs
    unfolding at
    at_low = let low : hash (get_key item) % n < n = grind arith in omega arith

    chain : List ℕ
    chain = get_or bs at []

    abbrev appended : List (List ℕ)
    appended = set bs at (chain ++ item ∷ [])

    appended-Placed : Placed get_key hash n 0 appended
    unfolding at chain view
    appended-Placed =
        let (here, d) = Placed-get get_key hash n 0 at bs placed at_low in
        Placed-set get_key hash n 0 at bs (chain ++ item ∷ []) placed
          (InBucket-snoc get_key hash n (0 + at) chain item here (omega arith))
          (Distinct-snoc get_key chain item d fresh)

    appended-view :
        (q : ℕ)
        → view get_key hash n appended q
          ≡ (if get_key item == q then some item else view get_key hash n bs q)
    unfolding at chain view
    appended-view q = elim (ℕ_discrete at (hash q % n)) [
      | yes e ↦
          ap (λ (c : List ℕ). find_item get_key c q)
            (ap (λ (j : ℕ). get_or appended j []) (sym e)
              ∙ get_or-set_self bs at (chain ++ item ∷ []) [] at_low)
          ∙ find_item-snoc get_key chain item q fresh
          ∙ ap
              (λ (j : ℕ).
                if get_key item == q then some item else find_item get_key (get_or bs j []) q)
              e
      | no ne ↦
          let other : (get_key item == q) ≡ false =
            ground (arith, ap (λ (t : ℕ). hash t % n) {x = get_key item} {y = q}) in
          rw other
            (ap (λ (c : List ℕ). find_item get_key c q) (get_or-set_ne bs at (hash q % n) _ [] ne))
    ]

    pub append_item-Grown : Grown n bs item (append_item get_key hash n bs item)
    unfolding append_item view at chain
    append_item-Grown = record {
      out = appended;
      returns =
          rw
            (
              hash_value-mod hash n (get_key item) pos,
              get_elem?-eq-get_or bs at [] at_low,
              append-new chain item (not_in_list get_key chain item fresh),
            )
            refl;
      stored = length-set bs at (chain ++ item ∷ []) ∙ stored;
      placed = appended-Placed;
      count = omega (
        arith,
        length-flatten-set at bs (chain ++ item ∷ []) at_low,
        length-append chain (item ∷ []),
      );
      views = appended-view;
    }

  -- The buckets with the items of a sequence more.
  pub record Moved (n : ℕ) (xs : List ℕ) (bs : List (List ℕ)) (result : Option (List (List ℕ)))
      : Type 0 where
    pub out : List (List ℕ)
    pub returns : result ≡ some out
    pub stored : length out ≡ n
    pub placed : Placed get_key hash n 0 out
    pub count : length (flatten out) ≡ length (flatten bs) + length xs
    pub views :
        (q : ℕ)
        → view get_key hash n out q ≡ or_else (find_item get_key xs q) (view get_key hash n bs q)

  pub move_bucket-Moved :
      (n : ℕ) (xs : List ℕ) (bs : List (List ℕ))
      → 0 < n
      → length bs ≡ n
      → Placed get_key hash n 0 bs
      → Distinct get_key xs
      → ((k : ℕ) → (find_item get_key xs k ≡ none) ⊎ (view get_key hash n bs k ≡ none))
      → Moved n xs bs (move_bucket get_key hash n xs bs)
  unfolding move_bucket find_item or_else
  move_bucket-Moved n [] bs pos stored placed d fresh = record {
    out = bs;
    returns = refl;
    stored = stored;
    placed = placed;
    count = omega arith;
    views = λ q. refl;
  }
  move_bucket-Moved n (x ∷ xs) bs pos stored placed (first, d) fresh =
      let new_key : view get_key hash n bs (get_key x) ≡ none = ground (arith, fresh (get_key x)) in
      let g = append_item-Grown n bs x pos stored placed new_key in
      let rest =
        move_bucket-Moved n xs g.out pos g.stored g.placed d
          (λ k. fresh-rest k g.out (g.views k)) in
      record {
        out = rest.out;
        returns = rw g.returns rest.returns;
        stored = rest.stored;
        placed = rest.placed;
        count = omega (arith, rest.count, g.count);
        views = λ q.
            rest.views q
            ∙ ground (arith, g.views q, first, ap (find_item get_key xs) {x = get_key x} {y = q});
      }
    where
      fresh-rest :
          (k : ℕ) (out : List (List ℕ))
          → view get_key hash n out k
            ≡ (if get_key x == k then some x else view get_key hash n bs k)
          → (find_item get_key xs k ≡ none) ⊎ (view get_key hash n out k ≡ none)
      fresh-rest k out e = elim (Bool-cases (k == get_key x)) [
        | inl same ↦ inl (ground (arith, first, ap (find_item get_key xs) {x = get_key x} {y = k}))
        | inr other ↦ elim (fresh k) [
          | inl gone ↦ inl (ground (arith, gone))
          | inr clear ↦ inr (ground (arith, e, clear))
        ]
      ]
