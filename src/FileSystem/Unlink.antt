-- ===== src/FileSystem/Unlink.antt =====
-- FileSystem::Unlink, and the search for an inode in FileSystem::Create, of filesys/filesys.cc, on the free
-- maps of the cylinder groups. `none` is a failed ASSERT or an access out of bounds.
pub mod Freed
pub mod Chosen
mod Examples
use everything.Base.{
  ℕ, zero, suc, ◌+◌, ◌-◌, ◌*◌, ◌/◌, ◌%◌, Bool, true, false, Option, none, some, List, [], ◌∷◌, ltb,
  leb, if◌then◌else◌, get_elem?, set, assert, ◌>>=◌, ◌>>◌,
}
use everything.Bitmap.{Bitmap, find_and_set}
use everything.FileSystem.Layout.{cylinder_groups}
use everything.FileSystem.Inode.{FileHeader, num_direct_fragments, gather}
use everything.FileSystem.Allocate.{clear_at}

-- The free maps of all cylinder groups.
pub record FreeMaps : Type 0 where
  pub fragments : List Bitmap
  pub inodes : List Bitmap

-- The loop that clears the file's fragments.
pub clear_fragments : ℕ → List ℕ → List Bitmap → Option (List Bitmap)
clear_fragments per_group [] maps = some maps
clear_fragments per_group (fragment ∷ fragments) maps = do
  maps' ← clear_at maps (fragment / per_group) (fragment % per_group)
  clear_fragments per_group fragments maps'

-- The Clear for the indirect block, by its number as it is; -1 fails the ASSERT of Clear.
pub clear_indirect : ℕ → FileHeader → List Bitmap → Option (List Bitmap)
clear_indirect per_group hdr maps = do
  block ← hdr.indirect_block
  clear_at maps (block / per_group) block

-- The Clear for the inode. Its index is below 0 for the last inode of a group, and fails the ASSERT.
pub clear_inode : ℕ → FileHeader → ℕ → List Bitmap → Option (List Bitmap)
clear_inode inodes_per_group hdr inode maps = do
  assert (ltb (inode / inodes_per_group * inodes_per_group) hdr.id)
  clear_at maps (inode / inodes_per_group)
      (hdr.id - inode / inodes_per_group * inodes_per_group - 1)

-- FileSystem::Unlink, with the inode's header and indirect block as they are on the disk.
pub unlink : ℕ → ℕ → ℕ → FileHeader → List ℕ → FreeMaps → Option FreeMaps
unfolding clear_fragments clear_indirect clear_inode
unlink inodes_per_group per_group inode hdr indirect maps =
    let cleared = clear_indirect per_group hdr maps.fragments in
    do
      fragments ← gather hdr indirect
      maps₁ ← if ltb num_direct_fragments hdr.num_fragments then cleared else some maps.fragments
      maps₂ ← clear_fragments per_group fragments maps₁
      inodes' ← clear_inode inodes_per_group hdr inode maps.inodes
      some (record { fragments = maps₂; inodes = inodes' })

-- The loop of Create over the cylinder groups, with the rounds left; `none` inside is the -1.
pub find_inode : ℕ → ℕ → List Bitmap → Option (Option ℕ × List Bitmap)
find_inode zero i maps = some (none, maps)
find_inode (suc rounds) i maps = do
  b ← get_elem? maps i
  (empty, b') ← find_and_set b
  let next = find_inode rounds (i + 1) (set maps i b')
  elim empty [ none ↦ next | some empty ↦ some (some (empty + 1), set maps i b') ]
