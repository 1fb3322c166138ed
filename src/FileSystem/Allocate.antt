-- ===== src/FileSystem/Allocate.antt =====
-- FileSystem::Allocate of filesys/filesys.cc, on the free maps of the cylinder groups. The maps are read
-- from the disk and written back only if the call succeeds, so a failed call leaves them; the inode is
-- the caller's. `none` is a failed ASSERT or an access out of bounds.
pub mod Claims
pub mod Groups
pub mod Kept
pub mod Growth
pub mod Inside
pub mod Whole
mod Examples
use everything.Base.{
  ℕ, zero, suc, ◌+◌, ◌-◌, ◌*◌, ◌/◌, ◌%◌, min, Bool, true, false, not, Option, none, some, List, [],
  ◌∷◌, ◌++◌, ltb, leb, ◌==◌, ◌&&◌, if◌then◌else◌, length, get_elem?, set, drop, take, assert, ◌>>=◌,
  ◌>>◌,
}
use everything.Bitmap.{Bitmap, mark, clear, find_and_set}
use everything.FileSystem.Layout.{cylinder_groups}
use everything.FileSystem.Place.{
  consecutive, next_aligned_fragments, next_place_for_small_fragments,
}
use everything.FileSystem.Inode.{
  FileHeader, num_direct_fragments, max_fragments, gather, set_data_fragments, set_fragments,
}

-- BLOCK_SIZE / FRAGMENT_SIZE
abbrev pub fragment_in_one_block : ℕ
fragment_in_one_block = 4

-- cf[group]->getFreeFragmentMap()->Mark(p)
pub mark_at : List Bitmap → ℕ → ℕ → Option (List Bitmap)
mark_at maps group p = do b ← get_elem? maps group; b' ← mark b p; some (set maps group b')

-- cf[group]->getFreeFragmentMap()->Clear(p)
pub clear_at : List Bitmap → ℕ → ℕ → Option (List Bitmap)
clear_at maps group p = do b ← get_elem? maps group; b' ← clear b p; some (set maps group b')

-- The marks of a run, and the numbers of its fragments on the disk.
pub mark_all : ℕ → List Bitmap → ℕ → List ℕ → Option (List ℕ × List Bitmap)
mark_all per_group maps group [] = some ([], maps)
mark_all per_group maps group (p ∷ ps) = do
  maps₁ ← mark_at maps group p
  (fragments, maps₂) ← mark_all per_group maps₁ group ps
  some ((p + group * per_group) ∷ fragments, maps₂)

-- The do-while loop for whole blocks in one group, with the blocks still to find. The result is the
-- fragments that were added, the blocks left and the maps.
pub fill_group : ℕ → ℕ → ℕ → List Bitmap → Option (List ℕ × ℕ × List Bitmap)
fill_group per_group zero group maps = some ([], 0, maps)
fill_group per_group (suc rest) group maps = do
  b ← get_elem? maps group
  ret ← next_aligned_fragments per_group b fragment_in_one_block fragment_in_one_block
  let more = (do
    (fragments, maps₁) ← mark_all per_group maps group ret
    (later, left, maps₂) ← fill_group per_group rest group maps₁
    some (fragments ++ later, left, maps₂))
  if length ret == 0 then some ([], suc rest, maps) else more

-- The loop over the groups for whole blocks, with the rounds left; `last` is last_in_cylinder.
pub fill_groups : ℕ → ℕ → ℕ → ℕ → ℕ → List Bitmap → Option (List ℕ × ℕ × List Bitmap)
unfolding fill_group
fill_groups per_group zero i last rest maps = some ([], rest, maps)
fill_groups per_group (suc rounds) i last rest maps =
    let round = (do
      (fragments, rest₁, maps₁) ← fill_group per_group rest ((i + last) % cylinder_groups) maps
      (later, left, maps₂) ← fill_groups per_group rounds (i + 1) last rest₁ maps₁
      some (fragments ++ later, left, maps₂)) in
    if rest == 0 then some ([], 0, maps) else round

-- What is done with the place for the fragments of a last, partial block.
pub take_place :
    ℕ
    → ℕ
    → ℕ
    → List Bitmap
    → Option ℕ × ℕ
    → Option (List ℕ × ℕ × List Bitmap)
    → Option (List ℕ × ℕ × List Bitmap)
unfolding mark_all
take_place per_group rest group maps (none, len) next = next
take_place per_group rest group maps (some first, len) next = do
  (fragments, maps₁) ←
      mark_all per_group maps group (consecutive (if ltb rest len then rest else len) first)
  some (fragments, 0, maps₁)

-- The loop over the groups for the fragments of the last block. The do-while loop inside runs once: it
-- ends on a place that was found, as it does on none.
pub place_rest : ℕ → ℕ → ℕ → ℕ → ℕ → List Bitmap → Option (List ℕ × ℕ × List Bitmap)
unfolding take_place
place_rest per_group zero i last rest maps = some ([], rest, maps)
place_rest per_group (suc rounds) i last rest maps =
    let group : ℕ = (i + last) % cylinder_groups in
    let next = place_rest per_group rounds (i + 1) last rest maps in
    let round = (do
      b ← get_elem? maps group
      place ← next_place_for_small_fragments per_group b fragment_in_one_block rest
      take_place per_group rest group maps place next) in
    if rest == 0 then some ([], 0, maps) else round

-- The loop over i that clears the fragments of the old last block, with the rounds left.
pub clear_extra : ℕ → ℕ → ℕ → ℕ → List ℕ → List Bitmap → Option (List Bitmap)
clear_extra per_group zero i group old maps = some maps
clear_extra per_group (suc left) i group old maps = do
  fragment ← get_elem? old (length old - i)
  maps' ← clear_at maps group (fragment % per_group)
  clear_extra per_group left (i + 1) group old maps'

-- The loop that takes a fragment for the indirect block; `none` inside is the -1.
pub find_indirect : ℕ → ℕ → List Bitmap → Option (Option ℕ × List Bitmap)
find_indirect zero i maps = some (none, maps)
find_indirect (suc rounds) i maps = do
  b ← get_elem? maps i
  (found, b') ← find_and_set b
  let next = find_indirect rounds (i + 1) (set maps i b')
  elim found [ none ↦ next | some id ↦ some (some id, set maps i b') ]

-- What Allocate changes: the caller's inode, and on the disk the indirect block and the maps.
pub record Allocation : Type 0 where
  pub success : Bool
  pub header : FileHeader
  pub indirect : List ℕ
  pub maps : List Bitmap

-- The fragments that are kept and those that were added, into the inode and the indirect block.
pub install : FileHeader → List ℕ → ℕ → ℕ → List ℕ → List Bitmap → Allocation
unfolding set_data_fragments set_fragments
install hdr indirect new_length num_new fragments maps =
    let hdr' = record hdr { num_bytes = new_length; num_fragments = num_new } in
    record {
      success = true;
      header = set_data_fragments hdr' fragments;
      indirect =
          if ltb num_direct_fragments num_new
          then set_fragments (drop num_direct_fragments fragments)
          else indirect;
      maps = maps;
    }

-- The branch for a file that grows, with the local maps. `last_fragment` is the last of the old ones.
pub grow :
    ℕ → FileHeader → List ℕ → List Bitmap → List ℕ → ℕ → ℕ → ℕ → List Bitmap → Option Allocation
unfolding clear_extra fill_groups place_rest install
grow per_group hdr indirect on_disk old last_fragment new_length num_new maps =
    let num_old : ℕ = length old in
    let extra : ℕ = num_old % fragment_in_one_block in
    let blocks : ℕ = num_old / fragment_in_one_block in
    let cylinder : ℕ = last_fragment / per_group in
    let failed : Allocation = record {
      success = false;
      header = hdr;
      indirect = indirect;
      maps = on_disk;
    } in
    do
      maps₁ ← clear_extra per_group extra 1 cylinder old maps
      last ←
          if not (extra == 0) && not (blocks == 0)
          then (get_elem? old (num_old - extra) >>= λ f. some (f / per_group))
          else some cylinder
      (added, left, maps₂) ←
          fill_groups per_group cylinder_groups 0 last (num_new / fragment_in_one_block - blocks)
            maps₁
      let smaller = (do
        (more, left', maps₃) ←
            place_rest per_group cylinder_groups 0 last (num_new % fragment_in_one_block) maps₂
        assert (leb (length (added ++ more)) max_fragments)
        let fragments = take (num_old - extra) old ++ (added ++ more)
        assert (leb (length fragments) max_fragments)
        some (
            if left' == 0 then install hdr indirect new_length num_new fragments maps₃ else failed))
      assert (leb (length added) max_fragments)
      if left == 0 then smaller else some failed

-- new_length / FRAGMENT_SIZE, rounded up.
pub fragments_for : ℕ → ℕ
fragments_for n = n / 1024 + (if n % 1024 == 0 then 0 else 1)

-- The rest of Allocate once the old fragments are read and an indirect block is there if one is needed.
-- For an empty file the code reads the int that stands before tmp_old_fragments: that is `none`.
pub resize : ℕ → FileHeader → List ℕ → List Bitmap → List ℕ → ℕ → List Bitmap → Option Allocation
unfolding grow fragments_for
resize per_group hdr indirect on_disk old new_length maps =
    let num_new : ℕ = fragments_for new_length in
    let num_old : ℕ = length old in
    let kept : Allocation = record {
      success = true;
      header = record hdr { num_bytes = new_length };
      indirect = indirect;
      maps = on_disk;
    } in
    do
      last_fragment ← get_elem? old (num_old - 1)
      if ltb num_old num_new
          then grow per_group hdr indirect on_disk old last_fragment new_length num_new maps
          else some kept

-- FileSystem::Allocate. `per_group` is fragment_in_one_cylinder.
pub allocate : ℕ → FileHeader → List ℕ → List Bitmap → ℕ → Option Allocation
unfolding resize find_indirect gather
allocate per_group hdr indirect maps new_length =
    let num_new : ℕ = fragments_for new_length in
    let failed : Allocation = record {
      success = false;
      header = hdr;
      indirect = indirect;
      maps = maps;
    } in
    do
      old ← gather hdr indirect
      let with_indirect = (do
        (found, maps') ← find_indirect cylinder_groups 0 maps
        elim found [
          | none ↦ some failed
          | some id ↦
              resize per_group (record hdr { indirect_block = some id }) indirect maps old
                new_length maps'
        ])
      if leb hdr.num_fragments num_direct_fragments && ltb num_direct_fragments num_new
          then with_indirect
          else resize per_group hdr indirect maps old new_length maps
