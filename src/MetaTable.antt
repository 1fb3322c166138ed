-- ===== src/MetaTable.antt =====
-- filesys/metatable.cc: who uses which inode, and which inodes wait for deletion.
-- Each operation runs under the table's lock; a step here is one such critical section, with the read
-- that some operations make right after it. `none` is the missing return of findInodeIndex. No caller
-- gives setUsage a negative number, so a usage is never one.
pub mod Items
pub mod Sharing
mod Examples
use everything.Base.{
  ℕ, zero, suc, ◌+◌, ◌-◌, Bool, true, false, Option, none, some, List, [], ◌∷◌, ◌==◌, ◌||◌,
  if◌then◌else◌, get_elem?, set, ◌>>=◌,
}

pub record MetaTableItem : Type 0 where
  pub inode : ℕ
  pub usage : ℕ
  pub last_modified : ℕ
  pub finish : ℕ

pub record MetaTable : Type 0 where
  pub table : List MetaTableItem

abbrev pub new_item : ℕ → MetaTableItem
new_item i = record { inode = i; usage = 0; last_modified = 0; finish = 0 }

-- for (int i = 1; i <= size; ++i) table[i - 1] = MetaTableItem(i), with the rounds left.
pub new_items : ℕ → ℕ → List MetaTableItem
new_items zero i = []
new_items (suc left) i = new_item i ∷ new_items left (i + 1)

-- MetaTable::MetaTable
pub new : ℕ → MetaTable
unfolding new_items
new size = record { table = new_items size 1 }

-- The loop of findInodeIndex at `i`, over the rest of the table.
pub find_inode_index_from : ℕ → List MetaTableItem → ℕ → Option ℕ
find_inode_index_from i [] inode = none
find_inode_index_from i (x ∷ xs) inode =
    let rest = find_inode_index_from (i + 1) xs inode in if inode == x.inode then some i else rest

-- MetaTable::findInodeIndex
pub find_inode_index : MetaTable → ℕ → Option ℕ
unfolding find_inode_index_from
find_inode_index t inode = find_inode_index_from 0 t.table inode

-- table[findInodeIndex(inode)], with its index.
pub item_of : MetaTable → ℕ → Option (ℕ × MetaTableItem)
item_of t inode = do
  index ← find_inode_index t inode
  item ← get_elem? t.table index
  some (index, item)

-- table[index] = item
abbrev pub store : MetaTable → ℕ → MetaTableItem → MetaTable
store t index item = record { table = set t.table index item }

-- MetaTable::getUsage
pub get_usage : MetaTable → ℕ → Option ℕ
get_usage t inode = do (index, item) ← item_of t inode; some item.usage

-- MetaTable::setUsage
pub set_usage : MetaTable → ℕ → ℕ → Option MetaTable
set_usage t inode usage = do
  (index, item) ← item_of t inode
  some (store t index (record item { usage = usage }))

-- MetaTable::incUsage
pub inc_usage : MetaTable → ℕ → Option MetaTable
inc_usage t inode = do
  (index, item) ← item_of t inode
  some (store t index (record item { usage = item.usage + 1 }))

-- MetaTable::decUsage. A usage of 0 would become -1 and is put back to 0, as `-` does it here.
pub dec_usage : MetaTable → ℕ → Option MetaTable
dec_usage t inode = do
  (index, item) ← item_of t inode
  let item' = record item { usage = item.usage - 1 }
  some (
      store t index
        (if item'.usage == 0 then record item' { usage = 0; last_modified = 0 } else item'))

-- MetaTable::setLastModified
pub set_last_modified : MetaTable → ℕ → ℕ → Option MetaTable
set_last_modified t inode last_modified = do
  (index, item) ← item_of t inode
  some (store t index (record item { last_modified = last_modified }))

-- MetaTable::checkLastModified
pub check_last_modified : MetaTable → ℕ → ℕ → Option Bool
check_last_modified t inode last_modified = do
  (index, item) ← item_of t inode
  some (item.last_modified == last_modified || item.last_modified == 0)

-- MetaTable::checkFinish
pub check_finish : MetaTable → ℕ → Option (Bool × MetaTable)
check_finish t inode = do
  (index, item) ← item_of t inode
  some (
      if item.finish == 0
      then (false, t)
      else if item.usage == 0
      then (true, store t index (record item { last_modified = 0; finish = 0 }))
      else (false, t))

-- MetaTable::tryFinish
pub try_finish : MetaTable → ℕ → Option (Bool × MetaTable)
try_finish t inode = do
  (index, item) ← item_of t inode
  some (
      if item.usage == 0
      then (true, store t index (record item { last_modified = 0 }))
      else (false, store t index (record item { finish = 1 })))

-- MetaTable::waitingFinish
pub waiting_finish : MetaTable → ℕ → Option Bool
waiting_finish t inode = do (index, item) ← item_of t inode; some (item.finish == 1)

-- What OpenFile::OpenFile does to the table.
pub open_file : MetaTable → ℕ → Option MetaTable
unfolding inc_usage
open_file t inode = inc_usage t inode

-- What OpenFile::~OpenFile does to the table; the result says whether it calls Unlink.
pub close_file : MetaTable → ℕ → Option (Bool × MetaTable)
close_file t inode = do t' ← dec_usage t inode; check_finish t' inode
