-- ===== src/FileSystem/WriteAt.antt =====
-- OpenFile::WriteAt and Write of filesys/openfile.cc, over Allocate and the disk, once the inode and its
-- indirect block are in memory. `none` is a failed ASSERT or an access out of bounds.
pub mod Overwrite
pub mod InPlace
mod Examples
use everything.Base.{
  ℕ, zero, suc, ◌+◌, ◌-◌, ◌*◌, ◌/◌, Option, some, List, length, get_elem?, drop, replicate, ltb,
  leb, ◌==◌, if◌then◌else◌, assert, ◌>>=◌, ◌>>◌,
}
use everything.Bitmap.{Bitmap}
use everything.Disk.{HostFile, Disk, read_length, write_length}
use everything.MetaTable.{MetaTable, set_last_modified}
use everything.FileSystem.Layout.{SuperBlock, fragment_size, sector_size}
use everything.FileSystem.Inode.{FileHeader, gather}
use everything.FileSystem.Allocate.{Allocation, allocate}
use everything.FileSystem.ReadAt.{read_fragments}
use everything.FileSystem.WriteBack.{write_back}
use everything.FileSystem.Fragments.{copy_bytes, write_fragments}

module _ {F : Type 0} (host : HostFile F) where
  -- One fragment of the file to its new place.
  pub move_fragment : (ℕ → ℕ) → (ℕ → ℕ) → ℕ → ℕ → Disk F → Option (Disk F)
  move_fragment read_clock write_clock old new d =
      let moved = (do
        (bytes, d') ←
            read_length host read_clock (fragment_size / sector_size * old) fragment_size d
        write_length host write_clock (fragment_size / sector_size * new) fragment_size bytes d') in
      if old == new then some d else moved

  -- The loop over the fragments before the position, with the rounds left; `clock 0 i` and `clock 1 i`
  -- have the times of the requests for fragment `i`.
  pub move_fragments : (ℕ → ℕ → ℕ → ℕ) → ℕ → ℕ → List ℕ → List ℕ → Disk F → Option (Disk F)
  unfolding move_fragment
  move_fragments clock zero i old new d = some d
  move_fragments clock (suc left) i old new d = do
    from ← get_elem? old i
    to ← get_elem? new i
    d' ← move_fragment (clock 0 i) (clock 1 i) from to d
    move_fragments clock left (i + 1) old new d'

  -- What WriteAt does with the fragments, old and new: the fragments from the position on are read,
  -- changed and written. The size of the buffer is not negative.
  pub write_part : (ℕ → ℕ → ℕ → ℕ) → ℕ → List ℕ → List ℕ → List ℕ → ℕ → ℕ → Disk F → Option (Disk F)
  unfolding move_fragments
  write_part clock file_length old new bytes num_bytes position d =
      let first : ℕ = position / fragment_size in
      do
        d₁ ← move_fragments clock (if ltb 0 file_length then first else 0) 0 old new d
        assert (leb first (length new))
        (buf, d₂) ←
            read_fragments host (clock 2) (length old - first) 0 (drop first old)
              (replicate ((length new - first) * fragment_size) 0) d₁
        buf' ← copy_bytes bytes num_bytes buf (position - first * fragment_size)
        write_fragments host (clock 3) (length new - first) 0 (drop first new) buf' d₂

  -- OpenFile::WriteAt: the bytes written, what Allocate leaves, with the inode, the table of inode usage,
  -- and the disk. `now` is totalTicks of the statistics, which FileHeader::setLastModified takes
  -- whatever its argument; `clock 4 0` has the times of the requests for the inode.
  pub write_at :
      (ℕ → ℕ → ℕ → ℕ)
      → SuperBlock
      → ℕ
      → FileHeader
      → List ℕ
      → List Bitmap
      → MetaTable
      → List ℕ
      → ℕ
      → ℕ
      → Disk F
      → Option (ℕ × Allocation × MetaTable × Disk F)
  unfolding write_part
  write_at clock super_block now hdr indirect maps meta_table bytes num_bytes position d =
      let file_length : ℕ = hdr.num_bytes in
      let end : ℕ = position + num_bytes in
      let new_length : ℕ = if ltb file_length end then end else file_length in
      do
        old ← gather hdr indirect
        a ← allocate super_block.num_fragment_cylinder hdr indirect maps new_length
        let written = (do
          new ← gather a.header a.indirect
          d₁ ← write_part clock file_length old new bytes num_bytes position d
          let hdr' = record a.header { last_modified = now }
          d₂ ← write_back host super_block (clock 4 0) hdr' d₁
          meta_table' ← set_last_modified meta_table hdr'.id hdr'.last_modified
          some (num_bytes, record a { header = hdr' }, meta_table', d₂))
        if a.success then written else some (0, a, meta_table, d)

  -- OpenFile::Write; the last but one result is the new seek position.
  pub write_file :
      (ℕ → ℕ → ℕ → ℕ)
      → SuperBlock
      → ℕ
      → FileHeader
      → List ℕ
      → List Bitmap
      → MetaTable
      → List ℕ
      → ℕ
      → ℕ
      → Disk F
      → Option (ℕ × Allocation × MetaTable × ℕ × Disk F)
  unfolding write_at
  write_file clock super_block now hdr indirect maps meta_table bytes num_bytes seek_position d = do
    (result, a, meta_table', d') ←
        write_at clock super_block now hdr indirect maps meta_table bytes num_bytes seek_position d
    some (result, a, meta_table', seek_position + result, d')
