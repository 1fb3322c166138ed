-- ===== src/Directory.antt =====
-- filesys/directory.cc and filesys/directory.h: the table of names of a directory in memory.
-- A name is the list of its bytes before the NUL. `tableSize` is the length of the table, which the
-- code always allocates at that size. `none` is a write behind the 32 bytes that an entry has for
-- its name, or a read behind the table. FetchFrom and WriteBack are not here: they move the table
-- through an OpenFile.
pub mod Names
pub mod Lookup
pub mod Update
pub mod Removal
mod Examples
use everything.Base.{
  ℕ, zero, suc, ◌+◌, ◌-◌, Bool, true, false, Option, none, some, List, [], ◌∷◌, ◌++◌, ltb, ◌==◌,
  ◌&&◌, if◌then◌else◌, length, get_elem?, assert, ◌>>=◌, ◌>>◌,
}

-- FileNameMaxLen
abbrev pub file_name_max_len : ℕ
file_name_max_len = 32

pub record DirectoryEntry : Type 0 where
  pub inode_number : ℕ
  pub name : List ℕ

pub record Directory : Type 0 where
  pub table : List DirectoryEntry

-- `!strncmp(a, b, n)`
pub same_upto : ℕ → List ℕ → List ℕ → Bool
same_upto zero a b = true
same_upto (suc n) [] [] = true
same_upto (suc n) [] (y ∷ ys) = false
same_upto (suc n) (x ∷ xs) [] = false
same_upto (suc n) (x ∷ xs) (y ∷ ys) = x == y && same_upto n xs ys

abbrev pub same_name : List ℕ → List ℕ → Bool
same_name = same_upto file_name_max_len

-- The loop of FindIndex at `i`, over the rest of the table.
pub find_index_from : ℕ → List DirectoryEntry → List ℕ → Option ℕ
find_index_from i [] name = none
find_index_from i (e ∷ es) name =
    let rest = find_index_from (i + 1) es name in if same_name e.name name then some i else rest

-- Directory::FindIndex; `none` is -1.
pub find_index : Directory → List ℕ → Option ℕ
unfolding find_index_from
find_index d name = find_index_from 0 d.table name

-- What Find does with the index.
pub find_at : Directory → Option ℕ → Option ℕ
find_at d none = none
find_at d (some i) = get_elem? d.table i >>= λ e. some e.inode_number

-- Directory::Find; `none` is -1.
pub find : Directory → List ℕ → Option ℕ
unfolding find_index find_at
find d name = find_at d (find_index d name)

-- `strncpy(to.name, name, strlen(name) + 1)` beside the inode number.
pub copy_entry : ℕ → List ℕ → Option DirectoryEntry
copy_entry inode name =
    assert (ltb (length name) file_name_max_len)
    >> some (record { inode_number = inode; name = name })

-- The loop of Add that copies the old table.
pub copy_table : List DirectoryEntry → Option (List DirectoryEntry)
copy_table [] = some []
copy_table (e ∷ es) = do e' ← copy_entry e.inode_number e.name; es' ← copy_table es; some (e' ∷ es')

-- What Add does with the index of the name.
pub add_at : Option ℕ → Directory → List ℕ → ℕ → Option (Bool × Directory)
add_at (some i) d name inode = some (false, d)
add_at none d name inode = do
  old ← copy_table d.table
  e ← copy_entry inode name
  some (true, record { table = old ++ e ∷ [] })

-- Directory::Add
pub add : Directory → List ℕ → ℕ → Option (Bool × Directory)
unfolding find_index add_at copy_table copy_entry
add d name inode = add_at (find_index d name) d name inode

-- The loop of Remove on fuel: `left` entries of the new table are still to be written, `j` is the
-- position in the old one.
pub remove_from : ℕ → ℕ → ℕ → ℕ → List DirectoryEntry → Option (List DirectoryEntry)
remove_from fuel zero j index table = some []
remove_from zero (suc left) j index table = none
remove_from (suc fuel) (suc left) j index table =
    let skip = remove_from fuel (suc left) (j + 1) index table in
    let take = (do
      e ← get_elem? table j
      e' ← copy_entry e.inode_number e.name
      es ← remove_from fuel left (j + 1) index table
      some (e' ∷ es)) in
    if index == j then skip else take

-- What Remove does with the index of the name. The loop runs at most once for each old entry.
pub remove_at : Option ℕ → Directory → Option (Bool × Directory)
remove_at none d = some (false, d)
remove_at (some index) d = do
  new_table ← remove_from (length d.table) (length d.table - 1) 0 index d.table
  some (true, record { table = new_table })

-- Directory::Remove
pub remove : Directory → List ℕ → Option (Bool × Directory)
unfolding find_index remove_at remove_from copy_entry
remove d name = remove_at (find_index d name) d
