-- ===== src/Directory/Update.antt =====
-- Add against the lookup by name.
use everything.Base.{
  ℕ, ◌<◌, ◌≡◌, refl, sym, ◌∙◌, true, false, none, some, List, [], ◌∷◌, ◌++◌, arith, if◌then◌else◌,
  length,
}
use everything.Directory.{
  Directory, DirectoryEntry, same_name, find_index, find, add, add_at, copy_entry, copy_table,
}
use everything.Directory.Names.{same_upto_sym, same_upto_cong}
use everything.Directory.Lookup.{lookup, position, find_index-position, find-lookup}

-- Every name leaves room for its NUL.
abbrev pub Fit : List DirectoryEntry → Type 0
Fit [] = Unit {0}
Fit (e ∷ es) = (length e.name < 32) × Fit es

-- No two entries have the same name.
abbrev pub Distinct : List DirectoryEntry → Type 0
Distinct [] = Unit {0}
Distinct (e ∷ es) = (position e.name es ≡ none) × Distinct es

pub record IsValid (d : Directory) : Type 0 where
  pub fit : Fit d.table
  pub distinct : Distinct d.table

copy_table-Fit : (es : List DirectoryEntry) → Fit es → copy_table es ≡ some es
unfolding copy_table copy_entry
copy_table-Fit [] f = refl
copy_table-Fit (e ∷ es) f = ground (arith, copy_table-Fit es f.1)

abbrev entry : ℕ → List ℕ → DirectoryEntry
entry inode name = record { inode_number = inode; name = name }

pub add-append :
    (d : Directory) (name : List ℕ) (inode : ℕ)
    → Fit d.table
    → length name < 32
    → position name d.table ≡ none
    → add d name inode ≡ some (true, record { table = d.table ++ entry inode name ∷ [] })
unfolding add add_at copy_entry
add-append d name inode f l e = ground (arith, copy_table-Fit d.table f, find_index-position d name)

lookup-append :
    (es : List DirectoryEntry) (name other : List ℕ) (inode : ℕ)
    → position name es ≡ none
    → lookup other (es ++ entry inode name ∷ [])
      ≡ (if same_name name other then some inode else lookup other es)
lookup-append [] name other inode e = refl
lookup-append (x ∷ es) name other inode e = ground (
  arith,
  lookup-append es name other inode,
  same_upto_cong 32 name other x.name,
  same_upto_sym 32 x.name name,
  same_upto_sym 32 x.name other,
)

Fit-append :
    (es : List DirectoryEntry) (e : DirectoryEntry)
    → Fit es
    → length e.name < 32
    → Fit (es ++ e ∷ [])
Fit-append [] e f h = (h, tt)
Fit-append (x ∷ es) e f h = (f.0, Fit-append es e f.1 h)

position-append :
    (es : List DirectoryEntry) (name : List ℕ) (e : DirectoryEntry)
    → position name es ≡ none
    → same_name e.name name ≡ false
    → position name (es ++ e ∷ []) ≡ none
position-append [] name e h n = rw n
position-append (x ∷ es) name e h n = ground (arith, position-append es name e)

Distinct-append :
    (es : List DirectoryEntry) (e : DirectoryEntry)
    → Distinct es
    → position e.name es ≡ none
    → Distinct (es ++ e ∷ [])
Distinct-append [] e d h = (refl, tt)
Distinct-append (x ∷ es) e d h = (
  position-append es x.name e d.0 (ground (arith, same_upto_sym 32 x.name e.name)),
  Distinct-append es e d.1 (ground arith),
)

-- Add succeeded: the name is found at the inode, and every other name as before.
pub record Added (d : Directory) (name : List ℕ) (inode : ℕ) : Type 0 where
  pub out : Directory
  pub returns : add d name inode ≡ some (true, out)
  pub valid : IsValid out
  pub finds :
      (other : List ℕ)
      → find out other ≡ (if same_name name other then some inode else find d other)

-- In a directory of distinct names of fewer than 32 bytes, Add of a name of fewer than 32 bytes
-- that is not found returns TRUE, keeps the directory so, and afterwards Find answers the inode for
-- the name and as before for every other.
pub add-Added :
    (d : Directory) (name : List ℕ) (inode : ℕ)
    → IsValid d
    → length name < 32
    → find_index d name ≡ none
    → Added d name inode
add-Added d name inode v l e =
    let fresh : position name d.table ≡ none = sym (find_index-position d name) ∙ e in
    let out : Directory = record { table = d.table ++ entry inode name ∷ [] } in
    record {
      out = out;
      returns = add-append d name inode v.fit l fresh;
      valid = record {
        fit = Fit-append d.table _ v.fit l;
        distinct = Distinct-append d.table _ v.distinct fresh;
      };
      finds = λ other.
          rw (find-lookup out other, find-lookup d other)
            (lookup-append d.table name other inode fresh);
    }
