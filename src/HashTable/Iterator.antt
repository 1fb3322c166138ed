-- ===== src/HashTable/Iterator.antt =====
-- HashIterator of lib/hash.h and lib/hash.cc. A ListIterator is what the list has from its current element
-- on, and `none` a NULL pointer to one.
pub mod Walk
use everything.Base.{
  ℕ, zero, suc, ◌+◌, ◌-◌, Bool, true, false, not, Option, none, some, List, [], ◌∷◌, ◌==◌, ltb,
  if◌then◌else◌, assert, ◌>>=◌, ◌>>◌, get_elem?,
}
use everything.HashTable.{HashTable, list_is_empty}

pub record HashIterator : Type 0 where
  pub bucket : ℕ
  pub bucket_iter : Option (List ℕ)

-- The loop of FindNextFullBucket, with the buckets that are left.
pub next_full : ℕ → List (List ℕ) → ℕ → Option ℕ
next_full zero buckets bucket = some bucket
next_full (suc left) buckets bucket = do
  items ← get_elem? buckets bucket
  let rest = next_full left buckets (bucket + 1)
  if list_is_empty items then rest else some bucket

-- HashTable::FindNextFullBucket
pub find_next_full_bucket : HashTable → ℕ → Option ℕ
unfolding next_full
find_next_full_bucket table bucket = next_full (table.num_buckets - bucket) table.buckets bucket

-- The end of the constructor and of Next.
pub open_bucket : HashTable → ℕ → Option HashIterator
open_bucket table bucket =
    let opens = (do
      items ← get_elem? table.buckets bucket
      some (record { bucket = bucket; bucket_iter = some items })) in
    if ltb bucket table.num_buckets
    then opens
    else some (record { bucket = bucket; bucket_iter = none })

-- HashIterator::HashIterator
pub begin : HashTable → Option HashIterator
unfolding find_next_full_bucket open_bucket
begin table = do bucket ← find_next_full_bucket table 0; open_bucket table bucket

abbrev pub is_done : HashTable → HashIterator → Bool
is_done table it = it.bucket == table.num_buckets

-- ListIterator::Item and ListIterator::Next
abbrev pub list_item : List ℕ → Option ℕ
list_item [] = none
list_item (x ∷ xs) = some x

abbrev pub list_next : List ℕ → Option (List ℕ)
list_next [] = none
list_next (x ∷ xs) = some xs

-- HashIterator::Item
pub item : HashTable → HashIterator → Option ℕ
item table it = do assert (not (is_done table it)); items ← it.bucket_iter; list_item items

-- HashIterator::Next
pub next : HashTable → HashIterator → Option HashIterator
unfolding find_next_full_bucket open_bucket
next table it = do
  items ← it.bucket_iter
  items' ← list_next items
  let advances = find_next_full_bucket table (it.bucket + 1) >>= open_bucket table
  if list_is_empty items' then advances else some (record it { bucket_iter = some items' })

-- The loop that the class is meant for: the items until IsDone, on fuel.
pub walk : ℕ → HashTable → HashIterator → Option (List ℕ)
unfolding item next
walk zero table it = none
walk (suc fuel) table it = elim (is_done table it) [
  | true ↦ some []
  | false ↦ do x ← item table it; it' ← next table it; xs ← walk fuel table it'; some (x ∷ xs)
]
