-- ===== src/MetaTable/Items.antt =====
-- The item of an inode: where it stands, and what a store to it changes.
use native.Mathlib.Numerals.{add-one}
use everything.Base.{
  ℕ, zero, suc, ◌+◌, ◌-◌, ◌≤◌, ◌<◌, ◌≡◌, ◌≢◌, refl, Option, some, List, [], ◌∷◌, arith, length,
  get_elem?, set, get_elem?-set_self, get_elem?-set_ne, get_elem?-some,
}
use everything.MetaTable.{
  MetaTable, MetaTableItem, new_items, new, find_inode_index_from, find_inode_index, item_of, store,
  set_last_modified,
}

-- The items are numbered on from `k`.
abbrev pub Numbered : ℕ → List MetaTableItem → Type 0
Numbered k [] = Unit {0}
Numbered k (x ∷ xs) = (x.inode ≡ k) × Numbered (suc k) xs

abbrev pub IsValid : MetaTable → Type 0
IsValid t = Numbered 1 t.table

new_items-Numbered : (left i : ℕ) → Numbered i (new_items left i)
unfolding new_items
new_items-Numbered zero i = tt
new_items-Numbered (suc left) i = (refl, rw (add-one i) (new_items-Numbered left (suc i)))

pub new-IsValid : (size : ℕ) → IsValid (new size)
unfolding new
new-IsValid size = new_items-Numbered size 1

find_from-Numbered :
    (xs : List MetaTableItem) (i k j : ℕ)
    → Numbered k xs
    → j < length xs
    → find_inode_index_from i xs (k + j) ≡ some (i + j)
unfolding find_inode_index_from
find_from-Numbered [] i k j n h = absurd (omega arith)
find_from-Numbered (x ∷ xs) i k zero n h = ground arith
find_from-Numbered (x ∷ xs) i k (suc j) n h =
    let e : k + suc j ≡ suc k + j = omega arith in
    let e' : i + suc j ≡ i + 1 + j = omega arith in
    rw (e, e') (ground (arith, find_from-Numbered xs (i + 1) (suc k) j n.1))

-- The item of an inode, at its place.
abbrev pub item_at : MetaTable → ℕ → Option MetaTableItem
item_at t inode = get_elem? t.table (inode - 1)

pub item_of-item_at :
    (t : MetaTable) (inode : ℕ) {x : MetaTableItem}
    → IsValid t
    → 1 ≤ inode
    → item_at t inode ≡ some x
    → item_of t inode ≡ some (inode - 1, x)
unfolding item_of find_inode_index
item_of-item_at t inode v h e =
    let p : 1 + (inode - 1) ≡ inode = omega arith in
    let q : 0 + (inode - 1) ≡ inode - 1 = omega arith in
    let found =
      find_from-Numbered t.table 0 1 (inode - 1) v (get_elem?-some t.table (inode - 1) e) in
    let found' : find_inode_index_from 0 t.table inode ≡ some (inode - 1) = rw (p, q) at found in
    rw (found', e)

Numbered-set :
    (xs : List MetaTableItem) (k i : ℕ) {x : MetaTableItem} (y : MetaTableItem)
    → Numbered k xs
    → get_elem? xs i ≡ some x
    → y.inode ≡ x.inode
    → Numbered k (set xs i y)
Numbered-set [] k i y n e s = cc
Numbered-set (z ∷ xs) k zero y n e s = ground arith
Numbered-set (z ∷ xs) k (suc i) y n e s = (n.0, Numbered-set xs (suc k) i y n.1 e s)

pub store-IsValid :
    (t : MetaTable) (inode : ℕ) {x : MetaTableItem} (y : MetaTableItem)
    → IsValid t
    → item_at t inode ≡ some x
    → y.inode ≡ x.inode
    → IsValid (store t (inode - 1) y)
store-IsValid t inode y v e s = Numbered-set t.table 1 (inode - 1) y v e s

pub item_at-store :
    (t : MetaTable) (inode : ℕ) {x : MetaTableItem} (y : MetaTableItem)
    → item_at t inode ≡ some x
    → item_at (store t (inode - 1) y) inode ≡ some y
item_at-store t inode y e =
    get_elem?-set_self t.table (inode - 1) y (get_elem?-some t.table (inode - 1) e)

pub item_at-store_ne :
    (t : MetaTable) (inode other : ℕ) (y : MetaTableItem)
    → 1 ≤ inode
    → 1 ≤ other
    → inode ≢ other
    → item_at (store t (inode - 1) y) other ≡ item_at t other
item_at-store_ne t inode other y h h' ne =
    get_elem?-set_ne t.table (inode - 1) (other - 1) y (λ e. ne (omega arith))

pub set_last_modified-stored :
    (t : MetaTable) (inode now index : ℕ) (x : MetaTableItem)
    → item_of t inode ≡ some (index, x)
    → set_last_modified t inode now ≡ some (store t index (record x { last_modified = now }))
unfolding set_last_modified
set_last_modified-stored t inode now index x e = rw e refl
