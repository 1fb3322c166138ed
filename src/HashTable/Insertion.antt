-- ===== src/HashTable/Insertion.antt =====
-- Insert adds an item under a new key.
use everything.Base.{
  ℕ, ◌+◌, ◌*◌, ◌≤◌, ◌≡◌, ◌≢◌, refl, ◌∙◌, Option, none, some, ◌==◌, if◌then◌else◌, arith, inl, inr,
  ◌⊎◌, Option-cases,
}
use everything.HashTable.{HashTable, insert}
use everything.HashTable.Layout.{Legal}
use everything.HashTable.Place.{append_item-Grown}
use everything.HashTable.Growth.{grow_if_full-Grew}
use everything.HashTable.Lookup.{item_under, is_in_table-item_under}

module _ (get_key hash : ℕ → ℕ) where
  -- The table with one item more.
  pub record Inserted (table : HashTable) (item : ℕ) (result : Option HashTable) : Type 0 where
    out : HashTable
    returns : result ≡ some out
    legal : Legal get_key hash out
    counted : out.num_items ≡ table.num_items + 1
    views :
        (q : ℕ)
        → item_under get_key hash out q
          ≡ (if get_key item == q then some item else item_under get_key hash table q)
    room : table.num_items ≤ 3 * table.num_buckets → out.num_items ≤ 3 * out.num_buckets

  insert-new :
      (table : HashTable) (item : ℕ)
      → Legal get_key hash table
      → item_under get_key hash table (get_key item) ≡ none
      → Inserted table item (insert get_key hash table item)
  unfolding insert item_under
  insert-new table item ok fresh =
      let g = grow_if_full-Grew get_key hash table ok in
      let t = g.same.out in
      let legal = g.same.legal in
      let p =
        append_item-Grown get_key hash t.num_buckets t.buckets item legal.some_bucket legal.stored
          legal.placed (g.same.views (get_key item) ∙ fresh) in
      let out : HashTable = record t { buckets = p.out; num_items = t.num_items + 1 } in
      let out_legal : Legal get_key hash out = record {
        some_bucket = legal.some_bucket;
        stored = p.stored;
        placed = p.placed;
        counted = omega (arith, legal.counted, p.count);
      } in
      let there : item_under get_key hash out (get_key item) ≡ some item =
        p.views (get_key item) ∙ ground arith in
      record {
        out = out;
        returns =
            rw
              (
                is_in_table-item_under get_key hash table (get_key item) ok fresh,
                g.same.returns,
                p.returns,
                is_in_table-item_under get_key hash out (get_key item) out_legal there,
              )
              refl;
        legal = out_legal;
        counted = omega (arith, g.same.items);
        views = λ q. p.views q ∙ ground (arith, g.same.views q);
        room = λ h. omega (arith, g.room h, g.same.items);
      }

  -- In a table in which every item stands in the bucket of its key, no two items have one key and
  -- the count is right, Insert of an item whose key has none succeeds: the table is again such a
  -- one with one item more, its key has the item and every other key what it had, and at most three
  -- items to a bucket stay at most three; if the key has an item, an ASSERT fails.
  pub insert-Refines :
      (table : HashTable) (item : ℕ)
      → Legal get_key hash table
      → ((item_under get_key hash table (get_key item) ≡ none)
          × Inserted table item (insert get_key hash table item))
        ⊎ ((item_under get_key hash table (get_key item) ≢ none)
            × (insert get_key hash table item ≡ none))
  unfolding insert
  insert-Refines table item ok =
      elim (Option-cases (item_under get_key hash table (get_key item))) [
        | inl fresh ↦ inl (fresh, insert-new table item ok fresh)
        | inr (old, e) ↦
            inr (
              (λ gone. cc),
              rw (is_in_table-item_under get_key hash table (get_key item) ok e) refl,
            )
      ]
