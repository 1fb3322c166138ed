-- ===== src/HashTable.antt =====
-- lib/hash.h and lib/hash.cc: HashTable. An item and a key are numbers; the functions `getKey` and `hash`
-- that the table is made with are parameters. A bucket is the sequence of its items; an int that counts
-- them does not overflow. `none` is a failed ASSERT, or an access outside the array of buckets.
pub mod Chain
pub mod Layout
pub mod Place
pub mod Growth
pub mod Lookup
pub mod Insertion
pub mod Removal
pub mod Iterator
mod Examples
use everything.Base.{
  ℕ, zero, suc, ◌+◌, ◌-◌, ◌*◌, ◌/◌, ◌%◌, Bool, true, false, not, Option, none, some, List, [], ◌∷◌,
  ◌==◌, ltb, leb, if◌then◌else◌, assert, ◌>>=◌, ◌>>◌, length, get_elem?, set, replicate,
}
use everything.Semaphore.{append, is_in_list}

pub record HashTable : Type 0 where
  pub buckets : List (List ℕ)
  pub num_buckets : ℕ
  pub num_items : ℕ

-- InitialBuckets, ResizeRatio, IncreaseSizeBy
abbrev pub initial_buckets : ℕ
initial_buckets = 4

abbrev pub resize_ratio : ℕ
resize_ratio = 3

abbrev pub increase_size_by : ℕ
increase_size_by = 4

-- HashTable::InitBuckets
abbrev pub init_buckets : ℕ → List (List ℕ)
init_buckets sz = replicate sz []

-- HashTable::HashTable
abbrev pub new : HashTable
new = record {
  buckets = init_buckets initial_buckets;
  num_buckets = initial_buckets;
  num_items = 0;
}

abbrev pub is_empty : HashTable → Bool
is_empty table = table.num_items == 0

-- List<T>::Remove on the items in their order: the first that is equal is unlinked.
unfoldable pub unlink_item : List ℕ → ℕ → List ℕ
unlink_item [] item = []
unlink_item (x ∷ xs) item = let rest = unlink_item xs item in if item == x then xs else x ∷ rest

unfoldable pub list_remove : List ℕ → ℕ → Option (List ℕ)
unfolding unlink_item is_in_list
list_remove items item = do
  assert (is_in_list items item)
  let items' = unlink_item items item
  assert (not (is_in_list items' item))
  some items'

-- List<T>::IsEmpty
abbrev pub list_is_empty : List ℕ → Bool
list_is_empty [] = true
list_is_empty (x ∷ xs) = false

-- The unsigned remainder; with no buckets it is a division by zero.
pub hash_value : (hash : ℕ → ℕ) → ℕ → ℕ → Option ℕ
hash_value hash num_buckets key = do
  assert (ltb 0 num_buckets)
  let result = hash key % num_buckets
  assert (ltb result num_buckets)
  some result

-- HashTable::~HashTable
pub destroy : HashTable → Option (Unit {0})
destroy table = assert (is_empty table)

module _ (get_key : ℕ → ℕ) where
  -- The loop of FindInBucket.
  unfoldable pub find_item : List ℕ → ℕ → Option ℕ
  find_item [] key = none
  find_item (x ∷ xs) key = let rest = find_item xs key in if key == get_key x then some x else rest

  -- HashTable::FindInBucket; the inner `none` is FALSE.
  pub find_in_bucket : List (List ℕ) → ℕ → ℕ → Option (Option ℕ)
  unfolding find_item
  find_in_bucket buckets bucket key = do
    items ← get_elem? buckets bucket
    some (find_item items key)

module _ (get_key hash : ℕ → ℕ) where
  -- HashTable::Find
  pub find : HashTable → ℕ → Option (Option ℕ)
  unfolding hash_value find_in_bucket
  find table key = do
    bucket ← hash_value hash table.num_buckets key
    find_in_bucket get_key table.buckets bucket key

  -- HashTable::IsInTable
  pub is_in_table : HashTable → ℕ → Option Bool
  unfolding find
  is_in_table table key = do
    found ← find table key
    some (elim found [ none ↦ false | some item ↦ true ])

  -- buckets[HashValue(getKey(item))]->Append(item)
  pub append_item : ℕ → List (List ℕ) → ℕ → Option (List (List ℕ))
  unfolding hash_value append
  append_item num_buckets buckets item = do
    bucket ← hash_value hash num_buckets (get_key item)
    items ← get_elem? buckets bucket
    items' ← append items item
    some (set buckets bucket items')

  -- The inner loop of ReHash empties a bucket from its front.
  pub move_bucket : ℕ → List ℕ → List (List ℕ) → Option (List (List ℕ))
  unfolding append_item
  move_bucket num_buckets [] buckets = some buckets
  move_bucket num_buckets (item ∷ rest) buckets = do
    buckets' ← append_item num_buckets buckets item
    move_bucket num_buckets rest buckets'

  pub move_all : ℕ → List (List ℕ) → List (List ℕ) → Option (List (List ℕ))
  unfolding move_bucket
  move_all num_buckets [] buckets = some buckets
  move_all num_buckets (items ∷ old_table) buckets = do
    buckets' ← move_bucket num_buckets items buckets
    move_all num_buckets old_table buckets'

  -- HashTable::SanityCheck: the items of a bucket, then the buckets with the count of their items. The
  -- call of SanityCheck on each bucket is about the links of a list, which a sequence has not; it is in
  -- LinkedList.
  pub check_bucket : ℕ → ℕ → List ℕ → Option (Unit {0})
  unfolding hash_value
  check_bucket num_buckets i [] = some tt
  check_bucket num_buckets i (item ∷ items) = do
    j ← hash_value hash num_buckets (get_key item)
    assert (i == j)
    check_bucket num_buckets i items

  pub check_from : ℕ → ℕ → List (List ℕ) → Option ℕ
  unfolding check_bucket
  check_from num_buckets i [] = some 0
  check_from num_buckets i (items ∷ buckets) = do
    check_bucket num_buckets i items
    num_found ← check_from num_buckets (i + 1) buckets
    some (length items + num_found)

  pub sanity_check : HashTable → Option (Unit {0})
  unfolding check_from
  sanity_check table = do
    num_found ← check_from table.num_buckets 0 table.buckets
    assert (table.num_items == num_found)

  -- HashTable::ReHash
  pub re_hash : HashTable → Option HashTable
  unfolding sanity_check move_all
  re_hash table = do
    sanity_check table
    let num_buckets' = table.num_buckets * increase_size_by
    buckets' ← move_all num_buckets' table.buckets (init_buckets num_buckets')
    let table' = record table { buckets = buckets'; num_buckets = num_buckets' }
    sanity_check table'
    some table'

  -- The test of Insert, and what it calls.
  pub grow_if_full : HashTable → Option HashTable
  unfolding re_hash
  grow_if_full table =
      if leb resize_ratio (table.num_items / table.num_buckets) then re_hash table else some table

  -- HashTable::Insert
  pub insert : HashTable → ℕ → Option HashTable
  unfolding is_in_table grow_if_full append_item
  insert table item = do
    let key = get_key item
    there ← is_in_table table key
    assert (not there)
    grown ← grow_if_full table
    buckets' ← append_item grown.num_buckets grown.buckets item
    let table' = record grown { buckets = buckets'; num_items = grown.num_items + 1 }
    there' ← is_in_table table' key
    assert there'
    some table'

  -- HashTable::Remove
  pub remove : HashTable → ℕ → Option (ℕ × HashTable)
  unfolding hash_value find_in_bucket list_remove is_in_table
  remove table key = do
    bucket ← hash_value hash table.num_buckets key
    found ← find_in_bucket get_key table.buckets bucket key
    item ← found
    items ← get_elem? table.buckets bucket
    items' ← list_remove items item
    let table' = record table {
      buckets = set table.buckets bucket items';
      num_items = table.num_items - 1;
    }
    there ← is_in_table table' key
    assert (not there)
    some (item, table')
