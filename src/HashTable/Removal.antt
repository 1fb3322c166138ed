-- ===== src/HashTable/Removal.antt =====
-- Remove takes the item of a key away.
use everything.Base.{
  ℕ, ◌+◌, ◌-◌, ◌%◌, ◌<◌, ◌≡◌, refl, sym, ap, ◌∙◌, false, Option, none, some, List, [], ◌∷◌, ◌==◌,
  if◌then◌else◌, arith, length, length-set, get_or, get_or-set_self, get_or-set_ne,
  get_elem?-eq-get_or, get_elem?-set_self, set, inl, inr, ◌⊎◌, Bool-cases, Option-cases,
}
use native.Mathlib.Decide.{ℕ_discrete}
use everything.HashTable.{HashTable, find_item, unlink_item, list_remove, find_in_bucket, remove}
use everything.HashTable.Chain.{
  Distinct, find_item-key, found-in_list, find_item-unlink, not_in_list, Distinct-unlink,
  length-unlink,
}
use everything.HashTable.Layout.{InBucket, view, Legal, Placed-get, Placed-set, length-flatten-set}
use everything.HashTable.Place.{hash_value-mod}
use everything.HashTable.Lookup.{item_under, bucket_low}

module _ (get_key hash : ℕ → ℕ) where
  pub record Removed (table : HashTable) (key : ℕ) (result : Option (ℕ × HashTable)) : Type 0 where
    item : ℕ
    out : HashTable
    found : item_under get_key hash table key ≡ some item
    returns : result ≡ some (item, out)
    legal : Legal get_key hash out
    counted : out.num_items + 1 ≡ table.num_items
    views :
        (q : ℕ)
        → item_under get_key hash out q
          ≡ (if key == q then none else item_under get_key hash table q)

  module _ (table : HashTable) (key item : ℕ) (ok : Legal get_key hash table)
      (there : item_under get_key hash table key ≡ some item) where
    at : ℕ
    at = hash key % table.num_buckets

    at_low : at < length table.buckets
    unfolding at
    at_low = bucket_low get_key hash table key ok

    chain : List ℕ
    chain = get_or table.buckets at []

    in_chain : find_item get_key chain key ≡ some item
    unfolding chain at item_under view
    in_chain = there

    chain-Distinct : Distinct get_key chain
    unfolding chain
    chain-Distinct =
        (Placed-get get_key hash table.num_buckets 0 at table.buckets ok.placed at_low).1

    gone : find_item get_key (unlink_item chain item) key ≡ none
    gone = find_item-unlink get_key chain key key chain-Distinct in_chain ∙ ground arith

    chain-removed : list_remove chain item ≡ some (unlink_item chain item)
    unfolding list_remove
    chain-removed =
        let listed = found-in_list get_key chain key in_chain in
        let its_key = find_item-key get_key chain key in_chain in
        let unlisted =
          not_in_list get_key (unlink_item chain item) item
            (ap (find_item get_key (unlink_item chain item)) its_key ∙ gone) in
        rw (listed, unlisted) refl

    abbrev unlinked : HashTable
    unlinked = record table {
      buckets = set table.buckets at (unlink_item chain item);
      num_items = table.num_items - 1;
    }

    unlinked-view :
        (q : ℕ)
        → item_under get_key hash unlinked q
          ≡ (if key == q then none else item_under get_key hash table q)
    unfolding item_under view at chain
    unlinked-view q = elim (ℕ_discrete at (hash q % table.num_buckets)) [
      | yes e ↦
          ap (λ (c : List ℕ). find_item get_key c q)
            (ap (λ (j : ℕ). get_or unlinked.buckets j []) (sym e)
              ∙ get_or-set_self table.buckets at (unlink_item chain item) [] at_low)
          ∙ find_item-unlink get_key chain key q chain-Distinct in_chain
          ∙ ap
              (λ (j : ℕ).
                if key == q then none else find_item get_key (get_or table.buckets j []) q)
              e
      | no ne ↦
          let other : (key == q) ≡ false =
            ground (arith, ap (λ (t : ℕ). hash t % table.num_buckets) {x = key} {y = q}) in
          rw other (
            ap (λ (c : List ℕ). find_item get_key c q)
              (get_or-set_ne table.buckets at (hash q % table.num_buckets) _ [] ne))
    ]

    unlinked-InBucket :
        (i : ℕ) (xs : List ℕ)
        → InBucket get_key hash table.num_buckets i xs
        → InBucket get_key hash table.num_buckets i (unlink_item xs item)
    unfolding unlink_item
    unlinked-InBucket i [] h = tt
    unlinked-InBucket i (x ∷ xs) (e, h) = elim (Bool-cases (item == x)) [
      | inl same ↦ rw same h
      | inr other ↦ rw other (e, unlinked-InBucket i xs h)
    ]

    unlinked-counted : unlinked.num_items + 1 ≡ table.num_items
    unfolding chain
    unlinked-counted = omega (
      arith,
      ok.counted,
      length-flatten-set at table.buckets (unlink_item chain item) at_low,
      length-unlink get_key chain item (found-in_list get_key chain key in_chain),
    )

    unlinked-Legal : Legal get_key hash unlinked
    unfolding chain
    unlinked-Legal =
        let (here, d) =
          Placed-get get_key hash table.num_buckets 0 at table.buckets ok.placed at_low in
        record {
          some_bucket = ok.some_bucket;
          stored = length-set table.buckets at (unlink_item chain item) ∙ ok.stored;
          placed =
              Placed-set get_key hash table.num_buckets 0 at table.buckets (unlink_item chain item)
                ok.placed (unlinked-InBucket (0 + at) chain here)
                (Distinct-unlink get_key chain item d);
          counted = omega (
            arith,
            ok.counted,
            length-flatten-set at table.buckets (unlink_item chain item) at_low,
            length-unlink get_key chain item (found-in_list get_key chain key in_chain),
          );
        }

    remove-there : Removed table key (remove get_key hash table key)
    unfolding remove find_in_bucket at chain
    remove-there = record {
      item = item;
      out = unlinked;
      found = there;
      returns =
          rw
            (
              hash_value-mod hash table.num_buckets key ok.some_bucket,
              get_elem?-eq-get_or table.buckets at [] at_low,
              in_chain,
              chain-removed,
              get_elem?-set_self table.buckets at (unlink_item chain item) at_low,
              gone,
            )
            refl;
      legal = unlinked-Legal;
      counted = unlinked-counted;
      views = unlinked-view;
    }

  remove-missing :
      (table : HashTable) (key : ℕ)
      → Legal get_key hash table
      → item_under get_key hash table key ≡ none
      → remove get_key hash table key ≡ none
  unfolding remove find_in_bucket item_under view
  remove-missing table key ok e =
      rw
        (
          hash_value-mod hash table.num_buckets key ok.some_bucket,
          get_elem?-eq-get_or table.buckets (hash key % table.num_buckets) []
              (bucket_low get_key hash table key ok),
          e,
        )
        refl

  -- In a table in which every item stands in the bucket of its key, no two items have one key and
  -- the count is right, Remove of a key that has an item gives that item and such a table with one
  -- item less, in which the key has none and every other key what it had; if the key has none, an
  -- ASSERT fails.
  pub remove-Refines :
      (table : HashTable) (key : ℕ)
      → Legal get_key hash table
      → Removed table key (remove get_key hash table key)
        ⊎ ((item_under get_key hash table key ≡ none) × (remove get_key hash table key ≡ none))
  remove-Refines table key ok = elim (Option-cases (item_under get_key hash table key)) [
    | inl e ↦ inr (e, remove-missing table key ok e)
    | inr (item, e) ↦ inl (remove-there table key item ok e)
  ]
