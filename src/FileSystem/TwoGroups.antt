-- ===== src/FileSystem/TwoGroups.antt =====
-- A small disk for the runs: two groups of eight fragments and eight inodes, and a file of the fragments 0
-- and 1.
use everything.Base.{ℕ, zero, suc, ◌≡◌, refl, none, some, List, [], ◌∷◌, get_elem?, replicate}
use everything.Bitmap.{Bitmap}
use everything.Bitmap.View.{IsValid}
use everything.FileSystem.Inode.{FileHeader, gather, read_ints}
use everything.FileSystem.Allocate.Claims.{Ready}

-- Fragments 0, 1, 6 and 7 are in use.
abbrev pub near : Bitmap
near = record { num_bits = 8; num_words = 1; map = 195 ∷ [] }

abbrev pub far : Bitmap
far = record { num_bits = 8; num_words = 1; map = 0 ∷ [] }

abbrev pub two_groups : List Bitmap
two_groups = near ∷ far ∷ []

abbrev pub small_file : FileHeader
small_file = record {
  id = 1;
  type = 0;
  owner_id = 0;
  last_modified = 0;
  last_accessed = 0;
  link_count = 1;
  num_bytes = 2000;
  num_fragments = 2;
  data_fragments = 0 ∷ 1 ∷ replicate 14 0;
  indirect_block = none;
}

pub two_groups-Ready : Ready 8 two_groups
two_groups-Ready = record { groups = refl; valid = valid; bits = bits }
  where
    valid : (g : ℕ) (b : Bitmap) → get_elem? two_groups g ≡ some b → IsValid b
    valid zero b e = let it : near ≡ b = cc in rw (← it) (record { sized = refl; stored = refl })
    valid (suc zero) b e =
        let it : far ≡ b = cc in rw (← it) (record { sized = refl; stored = refl })
    valid (suc (suc g)) b e = absurd cc

    bits : (g : ℕ) (b : Bitmap) → get_elem? two_groups g ≡ some b → b.num_bits ≡ 8
    bits zero b e = let it : near ≡ b = cc in rw (← it) refl
    bits (suc zero) b e = let it : far ≡ b = cc in rw (← it) refl
    bits (suc (suc g)) b e = absurd cc

pub small_file-reads : gather small_file [] ≡ some (0 ∷ 1 ∷ [])
unfolding gather read_ints
small_file-reads = refl
