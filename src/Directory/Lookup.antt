-- ===== src/Directory/Lookup.antt =====
-- Find as a lookup by name.
use everything.Base.{
  ℕ, suc, ◌+◌, ◌≡◌, refl, ◌∙◌, true, Option, none, some, List, [], ◌∷◌, arith, if◌then◌else◌,
  get_elem?, ◌>>=◌,
}
use everything.Directory.{
  Directory, DirectoryEntry, same_name, find_index_from, find_index, find_at, find,
}
use everything.Directory.Names.{same_upto_sym, same_upto_cong}

-- The inode of the first entry with the name.
abbrev pub lookup : List ℕ → List DirectoryEntry → Option ℕ
lookup name [] = none
lookup name (e ∷ es) = if same_name e.name name then some e.inode_number else lookup name es

-- The position of the first entry with the name.
abbrev pub position : List ℕ → List DirectoryEntry → Option ℕ
position name [] = none
position name (e ∷ es) =
    if same_name e.name name then some 0 else (position name es >>= λ i. some (suc i))

shift : ℕ → Option ℕ → Option ℕ
shift i o = o >>= λ j. some (i + j)

find_index_from-position :
    (i : ℕ) (es : List DirectoryEntry) (name : List ℕ)
    → find_index_from i es name ≡ shift i (position name es)
unfolding find_index_from shift
find_index_from-position i [] name = refl
find_index_from-position i (e ∷ es) name = ground (arith, find_index_from-position (i + 1) es name)

pub find_index-position :
    (d : Directory) (name : List ℕ) → find_index d name ≡ position name d.table
unfolding find_index shift
find_index-position d name = ground (arith, find_index_from-position 0 d.table name)

lookup-position :
    (es : List DirectoryEntry) (name : List ℕ)
    → lookup name es ≡ (position name es >>= λ i. get_elem? es i >>= λ e. some e.inode_number)
lookup-position [] name = refl
lookup-position (e ∷ es) name = ground (arith, lookup-position es name)

pub find-lookup : (d : Directory) (name : List ℕ) → find d name ≡ lookup name d.table
unfolding find find_at
find-lookup d name = ground (arith, lookup-position d.table name, find_index-position d name)

pub lookup-none :
    (es : List DirectoryEntry) (name : List ℕ) → position name es ≡ none → lookup name es ≡ none
lookup-none es name e = lookup-position es name ∙ rw e

-- Names that compare equal are looked up alike.
pub lookup_cong :
    (es : List DirectoryEntry) (a b : List ℕ) → same_name a b ≡ true → lookup a es ≡ lookup b es
lookup_cong [] a b e = refl
lookup_cong (x ∷ es) a b e = ground (
  arith,
  lookup_cong es a b e,
  same_upto_sym 32 x.name a,
  same_upto_sym 32 x.name b,
  same_upto_cong 32 a b x.name e,
)
