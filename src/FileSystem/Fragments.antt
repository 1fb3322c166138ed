-- ===== src/FileSystem/Fragments.antt =====
-- The loop over fragments in which OpenFile::WriteAt and WriteDir of filesys/openfile.cc write a buffer,
-- and the bcopy into it. `none` is a failed ASSERT or an access out of bounds.
pub mod Written
use everything.Base.{
  ℕ, zero, suc, ◌+◌, ◌*◌, ◌/◌, ◌++◌, Option, some, List, length, get_elem?, take, drop, leb, assert,
  ◌>>=◌, ◌>>◌,
}
use everything.Disk.{HostFile, Disk, write_length}
use everything.FileSystem.Layout.{fragment_size, sector_size}

-- bcopy of `n` bytes to a place of a buffer.
unfoldable pub copy_bytes : List ℕ → ℕ → List ℕ → ℕ → Option (List ℕ)
copy_bytes bytes n buf at = do
  assert (leb n (length bytes))
  assert (leb (at + n) (length buf))
  some (take at buf ++ (take n bytes ++ drop (at + n) buf))

module _ {F : Type 0} (host : HostFile F) where
  -- The loop that writes the buffer to the fragments, with the rounds left; `clock i` has the times of
  -- the requests for fragment `i`.
  pub write_fragments : (ℕ → ℕ → ℕ) → ℕ → ℕ → List ℕ → List ℕ → Disk F → Option (Disk F)
  write_fragments clock zero i fragments buf d = some d
  write_fragments clock (suc left) i fragments buf d = do
    fragment ← get_elem? fragments i
    d' ←
        write_length host (clock i) (fragment * (fragment_size / sector_size)) fragment_size
          (drop (i * fragment_size) buf) d
    write_fragments clock left (i + 1) fragments buf d'
