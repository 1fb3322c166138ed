-- ===== src/HashTable/Iterator/Walk.antt =====
-- The loop of a HashIterator meets every item once.
use everything.Base.{
  ℕ, zero, suc, ◌+◌, ◌-◌, ◌<◌, ◌≡◌, refl, sym, ap, ◌∙◌, true, false, Option, none, some, List, [],
  ◌∷◌, ◌++◌, inl, inr, ◌==◌, arith, length, drop, get_or, get_elem?-eq-get_or, Option-cases, ◌>>=◌,
  ltb,
}
use mathlib.Core.List.{flatten}
use everything.HashTable.{HashTable, find_item, list_is_empty}
use everything.HashTable.Chain.{Distinct}
use everything.HashTable.Layout.{Legal, Placed-Distinct}
use everything.HashTable.Growth.{view-flatten}
use everything.HashTable.Lookup.{item_under}
use everything.HashTable.Iterator.{
  HashIterator, next_full, find_next_full_bucket, open_bucket, list_item, begin, is_done, item,
  next, walk,
}

drop-here :
    (bs : List (List ℕ)) (i : ℕ) → i < length bs → drop i bs ≡ get_or bs i [] ∷ drop (i + 1) bs
drop-here [] i h = absurd (omega arith)
drop-here (b ∷ bs) zero h = refl
drop-here (b ∷ bs) (suc i) h =
    drop-here bs i (omega arith)
    ∙ ap (λ (n : ℕ). get_or bs i [] ∷ drop n (b ∷ bs)) {x = suc (i + 1)} {y = suc i + 1}
        (omega arith)

drop_all : (bs : List (List ℕ)) (i : ℕ) → length bs ≡ i → drop i bs ≡ []
drop_all [] zero h = refl
drop_all [] (suc i) h = refl
drop_all (b ∷ bs) zero h = absurd (omega arith)
drop_all (b ∷ bs) (suc i) h = drop_all bs i (omega arith)

-- The iterator has the items `ys` before it.
pub data Ahead (table : HashTable) : HashIterator → List ℕ → Type 0 where
  finished : (it : HashIterator) → it.bucket ≡ table.num_buckets → Ahead table it []
  standing :
      (i x : ℕ) (xs ys : List ℕ)
      → i < table.num_buckets
      → ys ≡ xs ++ flatten (drop (i + 1) table.buckets)
      → Ahead table (record { bucket = i; bucket_iter = some (x ∷ xs) }) (x ∷ ys)

module _ (table : HashTable) (stored : length table.buckets ≡ table.num_buckets) where
  record Opened (start : ℕ) (result : Option HashIterator) : Type 0 where
    it : HashIterator
    returns : result ≡ some it
    ahead : Ahead table it (flatten (drop start table.buckets))

  open-here :
      (start : ℕ) (items : List ℕ)
      → start < table.num_buckets
      → get_or table.buckets start [] ≡ items
      → list_is_empty items ≡ false
      → Opened start (open_bucket table start)
  unfolding open_bucket flatten
  open-here start [] low e full = cc
  open-here start (x ∷ xs) low e full = record {
    it = record { bucket = start; bucket_iter = some (x ∷ xs) };
    returns =
        let inside : ltb start table.num_buckets ≡ true = ground arith in
        rw (inside, get_elem?-eq-get_or table.buckets start [] (omega arith), e) refl;
    ahead = rw (drop-here table.buckets start (omega arith), e) (standing start x xs _ low refl);
  }

  next_full-Opened :
      (left start : ℕ)
      → left + start ≡ table.num_buckets
      → Opened start (next_full left table.buckets start >>= open_bucket table)
  unfolding next_full flatten
  next_full-Opened zero start e = record {
    it = record { bucket = start; bucket_iter = none };
    returns =
        unfold open_bucket in
        (let outside : ltb start table.num_buckets ≡ false = ground arith in rw outside refl);
    ahead = rw (drop_all table.buckets start (omega arith)) (finished _ (omega arith));
  }
  next_full-Opened (suc left) start e =
      let here = drop-here table.buckets start (omega arith) in
      let at = get_elem?-eq-get_or table.buckets start [] (omega arith) in
      elim (Option-cases (list_item (get_or table.buckets start []))) [
        | inl no_item ↦
            let o = next_full-Opened left (start + 1) (omega arith) in
            let no_items = empty_list (get_or table.buckets start []) no_item in
            record {
              it = o.it;
              returns = rw (at, no_items) o.returns;
              ahead = rw (here, no_items) o.ahead;
            }
        | inr (x, first) ↦
            let full = full_list (get_or table.buckets start []) first in
            let o = open-here start (get_or table.buckets start []) (omega arith) refl full in
            record { it = o.it; returns = rw (at, full) o.returns; ahead = o.ahead }
      ]
    where
      empty_list : (xs : List ℕ) → list_item xs ≡ none → xs ≡ []
      empty_list [] h = refl
      empty_list (x ∷ xs) h = cc

      full_list : (xs : List ℕ) {x : ℕ} → list_item xs ≡ some x → list_is_empty xs ≡ false
      full_list [] h = cc
      full_list (x ∷ xs) h = refl

  record Advanced (it : HashIterator) (x : ℕ) (ys : List ℕ) : Type 0 where
    it' : HashIterator
    not_done : is_done table it ≡ false
    current : item table it ≡ some x
    returns : next table it ≡ some it'
    ahead : Ahead table it' ys

  -- The iterator stands before the item `x` of bucket `i`.
  advance-at :
      (i x : ℕ) (xs ys : List ℕ)
      → i < table.num_buckets
      → ys ≡ xs ++ flatten (drop (i + 1) table.buckets)
      → Advanced (record { bucket = i; bucket_iter = some (x ∷ xs) }) x ys
  unfolding item next find_next_full_bucket
  advance-at i x [] ys low e =
      let o = next_full-Opened (table.num_buckets - (i + 1)) (i + 1) (omega arith) in
      let inside : (i == table.num_buckets) ≡ false = ground arith in
      record {
        it' = o.it;
        not_done = inside;
        current = rw inside refl;
        returns = o.returns;
        ahead = rw e o.ahead;
      }
  advance-at i x (y ∷ xs) ys low e =
      let inside : (i == table.num_buckets) ≡ false = ground arith in
      record {
        it' = record { bucket = i; bucket_iter = some (y ∷ xs) };
        not_done = inside;
        current = rw inside refl;
        returns = refl;
        ahead = rw e (standing i y xs _ low refl);
      }

  walk-Ahead :
      (fuel : ℕ) (it : HashIterator) (ys : List ℕ)
      → length ys < fuel
      → Ahead table it ys
      → walk fuel table it ≡ some ys
  unfolding walk
  walk-Ahead zero it ys enough h = absurd (omega arith)
  walk-Ahead (suc fuel) _ _ enough (finished it e) =
      let at_end : (it.bucket == table.num_buckets) ≡ true = ground arith in rw (at_end, walk) refl
  walk-Ahead (suc fuel) _ _ enough (standing i x xs ys low e) =
      let a = advance-at i x xs ys low e in
      rw (a.not_done, walk, a.current, a.returns, walk-Ahead fuel a.it' ys (omega arith) a.ahead)
        refl

-- Every item of the table once.
pub record Walked (get_key hash : ℕ → ℕ) (table : HashTable) : Type 0 where
  items : List ℕ
  returns : (begin table >>= walk (table.num_items + 1) table) ≡ some items
  counted : length items ≡ table.num_items
  distinct : Distinct get_key items
  found : (q : ℕ) → find_item get_key items q ≡ item_under get_key hash table q

-- On a table in which every item stands in the bucket of its key, no two items have one key and the
-- count is right, the loop over a new HashIterator ends within one round more than there are items
-- and fails no ASSERT; it meets as many items as the table counts, no two with one key, and under
-- each key the item that the table has.
pub walk-Walked :
    (get_key hash : ℕ → ℕ) (table : HashTable)
    → Legal get_key hash table
    → Walked get_key hash table
unfolding begin find_next_full_bucket item_under
walk-Walked get_key hash table ok =
    let o = next_full-Opened table ok.stored (table.num_buckets - 0) 0 (omega arith) in
    record {
      items = flatten table.buckets;
      returns = rw o.returns (
          walk-Ahead table ok.stored (table.num_items + 1) o.it (flatten table.buckets)
            (omega (arith, ok.counted)) o.ahead);
      counted = sym ok.counted;
      distinct = Placed-Distinct get_key hash table.num_buckets 0 table.buckets ok.placed;
      found = λ q. view-flatten get_key hash table.num_buckets table.buckets q ok.placed;
    }
