-- ===== src/FileSystem/ReadAt.antt =====
-- OpenFile::ReadAt and Read of filesys/openfile.cc, over the disk, once the inode and its
-- indirect block are in memory. `none` is a failed ASSERT or an access out of bounds.
pub mod Past
pub mod Overrun
pub mod Within
mod Examples
use everything.Base.{
  ℕ, zero, suc, ◌+◌, ◌-◌, ◌*◌, ◌/◌, Bool, true, false, Option, none, some, List, [], ◌∷◌, ◌++◌,
  length, get_elem?, take, drop, replicate, ltb, leb, ◌==◌, ◌||◌, if◌then◌else◌, assert, ◌>>=◌,
  ◌>>◌,
}
use everything.Disk.{HostFile, Disk, read_length}
use everything.FileSystem.Layout.{fragment_size, sector_size}
use everything.FileSystem.Inode.{FileHeader, gather}

-- A read of `len` bytes into a buffer at an offset.
pub store_bytes_at : List ℕ → ℕ → ℕ → List ℕ → Option (List ℕ)
store_bytes_at buf at len bytes = do
  assert (leb (at + len) (length buf))
  some (take at buf ++ (take len bytes ++ drop (at + len) buf))

module _ {F : Type 0} (host : HostFile F) where
  -- The loop over the fragments of the request, with the rounds left; `clock i` has the times of the
  -- requests for fragment `i`.
  pub read_fragments : (ℕ → ℕ → ℕ) → ℕ → ℕ → List ℕ → List ℕ → Disk F → Option (List ℕ × Disk F)
  unfolding store_bytes_at
  read_fragments clock zero i fragments buf d = some (buf, d)
  read_fragments clock (suc left) i fragments buf d = do
    fragment ← get_elem? fragments i
    (bytes, d') ←
        read_length host (clock i) (fragment * (fragment_size / sector_size)) fragment_size d
    buf' ← store_bytes_at buf (i * fragment_size) fragment_size bytes
    read_fragments clock left (i + 1) fragments buf' d'

  -- What ReadAt does for `num_bytes` bytes of the file, one or more.
  pub read_part : (ℕ → ℕ → ℕ) → FileHeader → List ℕ → ℕ → ℕ → Disk F → Option (List ℕ × Disk F)
  unfolding read_fragments
  read_part clock hdr indirect num_bytes position d =
      let first : ℕ = position / fragment_size in
      let count : ℕ = (position + num_bytes - 1) / fragment_size - first + 1 in
      do
        fragments ← gather hdr indirect
        (buf, d') ←
            read_fragments clock count first fragments (replicate (count * fragment_size) 0) d
        some (take num_bytes (drop (position - first * fragment_size) buf), d')

  -- OpenFile::ReadAt; the bytes that are copied into the caller's buffer are as many as it returns.
  pub read_at : (ℕ → ℕ → ℕ) → FileHeader → List ℕ → ℕ → ℕ → Disk F → Option (List ℕ × Disk F)
  unfolding read_part
  read_at clock hdr indirect num_bytes position d =
      let file_length : ℕ = hdr.num_bytes in
      let whole = read_part clock hdr indirect num_bytes position d in
      let rest = read_part clock hdr indirect (file_length - position) position d in
      if num_bytes == 0 || leb file_length position
      then some ([], d)
      else if leb file_length (position + num_bytes)
      then rest
      else whole

  -- OpenFile::Read; the last result is the new seek position.
  pub read_file : (ℕ → ℕ → ℕ) → FileHeader → List ℕ → ℕ → ℕ → Disk F → Option (List ℕ × ℕ × Disk F)
  unfolding read_at
  read_file clock hdr indirect num_bytes seek_position d = do
    (bytes, d') ← read_at clock hdr indirect num_bytes seek_position d
    some (bytes, seek_position + length bytes, d')
