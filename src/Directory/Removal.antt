-- ===== src/Directory/Removal.antt =====
-- Remove against the lookup by name.
use native.Mathlib.Numerals.{add-one}
use everything.Base.{
  ℕ, zero, suc, ◌+◌, ◌-◌, ◌≤◌, ◌<◌, ◌≡◌, ◌≢◌, refl, sym, ap, ◌∙◌, true, false, none, some, List, [],
  ◌∷◌, arith, if◌then◌else◌, length, get_elem?, Option-cases, inl, inr, erase_at, drop,
}
use everything.Directory.{
  Directory, DirectoryEntry, same_name, find_index, find, copy_entry, remove, remove_at,
  remove_from,
}
use everything.Directory.Names.{same_upto_sym, same_upto_cong}
use everything.Directory.Lookup.{
  lookup, position, find_index-position, find-lookup, lookup-none, lookup_cong,
}
use everything.Directory.Update.{Fit, Distinct, IsValid}

drop-cons :
    (j : ℕ) (table : List DirectoryEntry) {x : DirectoryEntry} {rest : List DirectoryEntry}
    → drop j table ≡ x ∷ rest
    → (get_elem? table j ≡ some x) × (drop (suc j) table ≡ rest)
drop-cons zero [] e = cc
drop-cons (suc j) [] e = cc
drop-cons zero (y ∷ ys) e = ground arith
drop-cons (suc j) (y ∷ ys) e = drop-cons j ys e

less_one : (n : ℕ) → suc (suc n) - 1 ≡ suc n
less_one n = omega arith

less : (n : ℕ) → suc n - 1 ≡ n
less n = omega arith

module _ (index : ℕ) (table : List DirectoryEntry) where
  take_step :
      (fuel left j : ℕ) (x : DirectoryEntry) {es : List DirectoryEntry}
      → index ≢ j
      → get_elem? table j ≡ some x
      → length x.name < 32
      → remove_from fuel left (j + 1) index table ≡ some es
      → remove_from (suc fuel) (suc left) j index table ≡ some (x ∷ es)
  unfolding remove_from copy_entry
  take_step fuel left j x ne e l h = ground arith

  skip_step :
      (fuel left j : ℕ)
      → index ≡ j
      → remove_from (suc fuel) (suc left) j index table
        ≡ remove_from fuel (suc left) (j + 1) index table
  unfolding remove_from
  skip_step fuel left j e = ground arith

  stop : (fuel j : ℕ) → remove_from fuel zero j index table ≡ some []
  unfolding remove_from
  stop zero j = refl
  stop (suc fuel) j = refl

  -- Behind the removed entry the rest is copied.
  copy_after :
      (fuel j : ℕ) (rest : List DirectoryEntry)
      → drop j table ≡ rest
      → length rest ≤ fuel
      → index < j
      → Fit rest
      → remove_from fuel (length rest) j index table ≡ some rest
  copy_after fuel j [] e h lt f = stop fuel j
  copy_after zero j (x ∷ xs) e h lt f = absurd (omega arith)
  copy_after (suc fuel) j (x ∷ xs) e h lt f =
      let (here, next) = drop-cons j table e in
      take_step fuel (length xs) j x (omega arith) here f.0
        (copy_after fuel (j + 1) xs (rw (add-one j) next) (omega arith) (omega arith) f.1)

  -- From `j` on, entry number `k` of the rest is left out.
  copy_before :
      (fuel j k : ℕ) (rest : List DirectoryEntry)
      → drop j table ≡ rest
      → length rest ≤ fuel
      → index ≡ j + k
      → k < length rest
      → Fit rest
      → remove_from fuel (length rest - 1) j index table ≡ some (erase_at rest k)
  copy_before fuel j k [] e h i lt f = absurd (omega arith)
  copy_before zero j k (x ∷ xs) e h i lt f = absurd (omega arith)
  copy_before (suc fuel) j zero (x ∷ []) e h i lt f = stop (suc fuel) j
  copy_before (suc fuel) j zero (x ∷ y ∷ ys) e h i lt f =
      let (here, next) = drop-cons j table e in
      rw (less_one (length ys)) (
        skip_step fuel (length ys) j (omega arith)
        ∙ copy_after fuel (j + 1) (y ∷ ys) (rw (add-one j) next) (omega arith) (omega arith) f.1)
  copy_before (suc fuel) j (suc k) (x ∷ []) e h i lt f = absurd (omega arith)
  copy_before (suc fuel) j (suc k) (x ∷ y ∷ ys) e h i lt f =
      let (here, next) = drop-cons j table e in
      let rest =
        copy_before fuel (j + 1) k (y ∷ ys) (rw (add-one j) next) (omega arith) (omega arith)
          (omega arith) f.1 in
      rw (less_one (length ys)) (
        take_step fuel (length ys) j x (omega arith) here f.0
          (ap (λ (n : ℕ). remove_from fuel n (j + 1) index table) (sym (less (length ys))) ∙ rest))

position-lt :
    (name : List ℕ) (es : List DirectoryEntry) {i : ℕ} → position name es ≡ some i → i < length es
position-lt name [] e = cc
position-lt name (x ∷ es) {i} e = elim (Option-cases (position name es)) [
  | inl n ↦ ground arith
  | inr (k, p) ↦ ground (arith, position-lt name es p)
]

pub remove-erase_at :
    (d : Directory) (name : List ℕ) (i : ℕ)
    → Fit d.table
    → position name d.table ≡ some i
    → remove d name ≡ some (true, record { table = erase_at d.table i })
unfolding remove remove_at
remove-erase_at d name i f e = ground (
  arith,
  find_index-position d name,
  copy_before i d.table (length d.table) 0 i d.table refl (omega arith) (omega arith)
      (position-lt name d.table e) f,
)

position-erase_at :
    (name : List ℕ) (es : List DirectoryEntry) (i : ℕ)
    → position name es ≡ none
    → position name (erase_at es i) ≡ none
position-erase_at name [] i h = refl
position-erase_at name (x ∷ es) zero h = ground arith
position-erase_at name (x ∷ es) (suc i) h = ground (arith, position-erase_at name es i)

Distinct-erase_at : (es : List DirectoryEntry) (i : ℕ) → Distinct es → Distinct (erase_at es i)
Distinct-erase_at [] i d = tt
Distinct-erase_at (x ∷ es) zero d = d.1
Distinct-erase_at (x ∷ es) (suc i) d =
    (position-erase_at x.name es i d.0, Distinct-erase_at es i d.1)

Fit-erase_at : (es : List DirectoryEntry) (i : ℕ) → Fit es → Fit (erase_at es i)
Fit-erase_at [] i f = tt
Fit-erase_at (x ∷ es) zero f = f.1
Fit-erase_at (x ∷ es) (suc i) f = (f.0, Fit-erase_at es i f.1)

position_head :
    (x : DirectoryEntry) (es : List DirectoryEntry) (name : List ℕ)
    → position name (x ∷ es) ≡ some 0
    → same_name x.name name ≡ true
position_head x es name e = elim (Option-cases (position name es)) [
  | inl n ↦ ground arith
  | inr (k, p) ↦ ground arith
]

position_tail :
    (x : DirectoryEntry) (es : List DirectoryEntry) (name : List ℕ) (i : ℕ)
    → position name (x ∷ es) ≡ some (suc i)
    → (same_name x.name name ≡ false) × (position name es ≡ some i)
position_tail x es name i e = elim (Option-cases (position name es)) [
  | inl n ↦ ground arith
  | inr (k, p) ↦ ground arith
]

lookup-erase_at :
    (es : List DirectoryEntry) (name other : List ℕ) {i : ℕ}
    → Distinct es
    → position name es ≡ some i
    → lookup other (erase_at es i) ≡ (if same_name name other then none else lookup other es)
lookup-erase_at [] name other d e = cc
lookup-erase_at (x ∷ es) name other {i = zero} d e = ground (
  arith,
  position_head x es name e,
  same_upto_cong 32 x.name name other,
  lookup_cong es x.name other,
  lookup-none es x.name d.0,
)
lookup-erase_at (x ∷ es) name other {i = suc i} d e = ground (
  arith,
  position_tail x es name i e,
  lookup-erase_at es name other d.1 (position_tail x es name i e).1,
  same_upto_cong 32 name other x.name,
  same_upto_sym 32 x.name name,
  same_upto_sym 32 x.name other,
)

-- What Remove promises of a name that is there: its entry goes, and the others are looked up as before.
pub record Removed (d : Directory) (name : List ℕ) : Type 0 where
  pub out : Directory
  pub returns : remove d name ≡ some (true, out)
  pub valid : IsValid out
  pub finds :
      (other : List ℕ) → find out other ≡ (if same_name name other then none else find d other)

-- In a directory of distinct names of fewer than 32 bytes, Remove of a name that is found returns
-- TRUE, keeps the directory so, and afterwards Find answers -1 for the name and as before for every
-- other.
pub remove-Removed :
    (d : Directory) (name : List ℕ) (i : ℕ)
    → IsValid d
    → find_index d name ≡ some i
    → Removed d name
remove-Removed d name i v e =
    let here : position name d.table ≡ some i = sym (find_index-position d name) ∙ e in
    let out : Directory = record { table = erase_at d.table i } in
    record {
      out = out;
      returns = remove-erase_at d name i v.fit here;
      valid = record {
        fit = Fit-erase_at d.table i v.fit;
        distinct = Distinct-erase_at d.table i v.distinct;
      };
      finds = λ other.
          rw (find-lookup out other, find-lookup d other)
            (lookup-erase_at d.table name other v.distinct here);
    }
