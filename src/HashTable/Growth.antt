-- ===== src/HashTable/Growth.antt =====
-- SanityCheck and ReHash.
use everything.Base.{
  ℕ, ◌+◌, ◌*◌, ◌/◌, ◌%◌, ◌≤◌, ◌<◌, ◌≡◌, refl, sym, ap, ◌∙◌, true, false, Option, none, some, List,
  [], ◌∷◌, ◌++◌, ◌==◌, arith, length, length-append, length-replicate, get_or, get_or-replicate,
  replicate, inl, inr, ◌>>=◌, Bool-cases, leb, Option-cases,
}
use native.Mathlib.Nat.{div-add-mod', mul-le-mul_right}
use mathlib.Core.List.{flatten}
use mathlib.Core.Option.{or_else}
use everything.HashTable.{
  HashTable, find_item, append_item, move_bucket, move_all, check_bucket, check_from, sanity_check,
  re_hash, grow_if_full,
}
use everything.HashTable.Layout.{
  InBucket, Placed, view, Legal, Placed-replicate, Placed-Distinct, find_item-flatten,
  flatten-replicate,
}
use everything.HashTable.Place.{hash_value-mod, move_bucket-Moved}

module _ (get_key hash : ℕ → ℕ) where
  check_bucket-InBucket :
      (n i : ℕ) (xs : List ℕ)
      → 0 < n
      → InBucket get_key hash n i xs
      → check_bucket get_key hash n i xs ≡ some tt
  unfolding check_bucket
  check_bucket-InBucket n i [] pos h = refl
  check_bucket-InBucket n i (x ∷ xs) pos (e, h) =
      let same : (i == hash (get_key x) % n) ≡ true = ground (arith, e) in
      rw (hash_value-mod hash n (get_key x) pos, same) (check_bucket-InBucket n i xs pos h)

  check_from-Placed :
      (n i : ℕ) (bs : List (List ℕ))
      → 0 < n
      → Placed get_key hash n i bs
      → check_from get_key hash n i bs ≡ some (length (flatten bs))
  unfolding check_from flatten
  check_from-Placed n i [] pos h = refl
  check_from-Placed n i (b ∷ bs) pos (here, d, h) =
      rw (check_bucket-InBucket n i b pos here, check_from-Placed n (i + 1) bs pos h)
        (ap some (sym (length-append b (flatten bs))))

  pub sanity_check-Legal :
      (table : HashTable) → Legal get_key hash table → sanity_check get_key hash table ≡ some tt
  unfolding sanity_check
  sanity_check-Legal table ok =
      let same : (table.num_items == length (flatten table.buckets)) ≡ true =
        ground (arith, ok.counted) in
      rw (check_from-Placed table.num_buckets 0 table.buckets ok.some_bucket ok.placed, same) refl

  move_bucket-append :
      (n : ℕ) (xs ys : List ℕ) (bs : List (List ℕ))
      → move_bucket get_key hash n (xs ++ ys) bs
        ≡ (move_bucket get_key hash n xs bs >>= move_bucket get_key hash n ys)
  unfolding move_bucket
  move_bucket-append n [] ys bs = refl
  move_bucket-append n (x ∷ xs) ys bs = elim (Option-cases (append_item get_key hash n bs x)) [
    | inl e ↦ rw e refl
    | inr (bs', e) ↦ rw e (move_bucket-append n xs ys bs')
  ]

  -- The buckets are emptied one after the other.
  move_all-flatten :
      (n : ℕ) (old bs : List (List ℕ))
      → move_all get_key hash n old bs ≡ move_bucket get_key hash n (flatten old) bs
  unfolding move_all flatten
  move_all-flatten n [] bs = unfold move_bucket in refl
  move_all-flatten n (b ∷ old) bs =
      let step = move_bucket-append n b (flatten old) bs in
      elim (Option-cases (move_bucket get_key hash n b bs)) [
        | inl e ↦ rw e (sym (step ∙ rw e refl))
        | inr (bs', e) ↦ rw e (move_all-flatten n old bs' ∙ sym (step ∙ rw e refl))
      ]

  pub view-empty : (n m q : ℕ) → view get_key hash n (replicate m []) q ≡ none
  unfolding view find_item
  view-empty n m q = rw (get_or-replicate {A = List ℕ} m (hash q % n) []) refl

  pub view-flatten :
      (n : ℕ) (bs : List (List ℕ)) (q : ℕ)
      → Placed get_key hash n 0 bs
      → find_item get_key (flatten bs) q ≡ view get_key hash n bs q
  unfolding view
  view-flatten n bs q h =
      find_item-flatten get_key hash n 0 bs q h (omega arith)
      ∙ ap (λ (j : ℕ). find_item get_key (get_or bs j []) q) (omega arith)

  -- A legal table with the items that `table` has.
  pub record Same (table : HashTable) (result : Option HashTable) : Type 0 where
    pub out : HashTable
    pub returns : result ≡ some out
    pub legal : Legal get_key hash out
    pub items : out.num_items ≡ table.num_items
    pub views :
        (q : ℕ)
        → view get_key hash out.num_buckets out.buckets q
          ≡ view get_key hash table.num_buckets table.buckets q

  pub record ReHashed (table : HashTable) (result : Option HashTable) : Type 0 where
    pub same : Same table result
    pub size : same.out.num_buckets ≡ table.num_buckets * 4

  -- On a table in which every item stands in the bucket of its key, no two items have one key and
  -- the count is right, ReHash fails no ASSERT of its own or of SanityCheck, and gives such a table
  -- with four times the buckets and as many items, that has for every key what the old one had.
  pub re_hash-ReHashed :
      (table : HashTable) → Legal get_key hash table → ReHashed table (re_hash get_key hash table)
  unfolding re_hash or_else
  re_hash-ReHashed table ok =
      let n = table.num_buckets * 4 in
      let pos : 0 < n = omega (arith, ok.some_bucket) in
      let m =
        move_bucket-Moved get_key hash n (flatten table.buckets) (replicate n []) pos
          (length-replicate n []) (Placed-replicate get_key hash n 0 n)
          (Placed-Distinct get_key hash table.num_buckets 0 table.buckets ok.placed)
          (λ k. inr (view-empty n n k)) in
      let moved = move_all-flatten n table.buckets (replicate n []) ∙ m.returns in
      let out : HashTable = record table { buckets = m.out; num_buckets = n } in
      let legal : Legal get_key hash out = record {
        some_bucket = pos;
        stored = m.stored;
        placed = m.placed;
        counted = omega (arith, ok.counted, m.count, ap length (flatten-replicate n));
      } in
      record {
        same = record {
          out = out;
          returns = rw (sanity_check-Legal table ok, moved, sanity_check-Legal out legal) refl;
          legal = legal;
          items = refl;
          views = λ q.
              m.views q
              ∙ rw (view-empty n n q) (or_none (find_item get_key (flatten table.buckets) q))
              ∙ view-flatten table.num_buckets table.buckets q ok.placed;
        };
        size = refl;
      }
    where
      or_none : (o : Option ℕ) → or_else o none ≡ o
      or_none none = refl
      or_none (some x) = refl

  pub record Grew (table : HashTable) (result : Option HashTable) : Type 0 where
    pub same : Same table result
    pub room : table.num_items ≤ 3 * table.num_buckets → table.num_items < 3 * same.out.num_buckets

  few_items : (items n : ℕ) → 0 < n → leb 3 (items / n) ≡ false → items < 3 * n
  few_items items n pos e =
      let small : items / n ≤ 2 = ground (arith, e) in
      let rest : items % n < n = grind arith in
      let whole = div-add-mod' items n in
      let most : items / n * n ≤ 2 * n = mul-le-mul_right n small in omega arith

  pub grow_if_full-Grew :
      (table : HashTable) → Legal get_key hash table → Grew table (grow_if_full get_key hash table)
  unfolding grow_if_full
  grow_if_full-Grew table ok = elim (Bool-cases (leb 3 (table.num_items / table.num_buckets))) [
    | inl e ↦
        let r = re_hash-ReHashed table ok in
        rw e (record { same = r.same; room = λ h. omega (arith, r.size, ok.some_bucket) })
    | inr e ↦ rw e (record {
      same = record { out = table; returns = refl; legal = ok; items = refl; views = λ q. refl };
      room = λ h. few_items table.num_items table.num_buckets ok.some_bucket e;
    })
  ]
