-- ===== src/HashTable/Lookup.antt =====
-- Find and IsInTable against the map from a key to its item, and the new table.
use everything.Base.{
  ℕ, ◌%◌, ◌<◌, ◌≡◌, refl, true, false, Option, none, some, [], arith, length, get_elem?-eq-get_or,
}
use mathlib.Core.List.{flatten}
use everything.HashTable.{HashTable, find_item, find_in_bucket, find, is_in_table, new}
use everything.HashTable.Layout.{view, Legal, Placed-replicate}
use everything.HashTable.Place.{hash_value-mod}
use everything.HashTable.Growth.{view-empty}

module _ (get_key hash : ℕ → ℕ) where
  -- The item of a key, if there is one.
  unfoldable pub item_under : HashTable → ℕ → Option ℕ
  item_under table key = view get_key hash table.num_buckets table.buckets key

  pub bucket_low :
      (table : HashTable) (k : ℕ)
      → Legal get_key hash table
      → hash k % table.num_buckets < length table.buckets
  bucket_low table k ok =
      let low : hash k % table.num_buckets < table.num_buckets =
        mod_low (hash k) table.num_buckets ok.some_bucket in
      omega (arith, ok.stored)
    where
      mod_low : (a n : ℕ) → 0 < n → a % n < n
      mod_low a n pos = grind arith

  pub find-item_under :
      (table : HashTable) (k : ℕ)
      → Legal get_key hash table
      → find get_key hash table k ≡ some (item_under table k)
  unfolding find find_in_bucket item_under view
  find-item_under table k ok =
      rw
        (
          hash_value-mod hash table.num_buckets k ok.some_bucket,
          get_elem?-eq-get_or table.buckets (hash k % table.num_buckets) [] (bucket_low table k ok),
        )
        refl

  pub is_in_table-item_under :
      (table : HashTable) (k : ℕ) {o : Option ℕ}
      → Legal get_key hash table
      → item_under table k ≡ o
      → is_in_table get_key hash table k ≡ some (elim o [ none ↦ false | some item ↦ true ])
  unfolding is_in_table
  is_in_table-item_under table k ok e = rw (find-item_under table k ok, e) refl

  -- A new table is legal and has no item.
  pub new-Legal : Legal get_key hash new × ((q : ℕ) → item_under new q ≡ none)
  unfolding item_under view find_item flatten
  new-Legal = (
    record {
      some_bucket = omega arith;
      stored = refl;
      placed = Placed-replicate get_key hash 4 0 4;
      counted = refl;
    },
    λ q. view-empty get_key hash 4 4 q,
  )
