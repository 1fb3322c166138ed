-- ===== src/FileSystem/WriteDir.antt =====
-- OpenFile::WriteDir of filesys/openfile.cc for data that fits in the file, over the disk, once the
-- inode is in memory and until it is written back. `none` is a failed ASSERT or an access out of bounds.
pub mod ReadBack
mod Examples
use everything.Base.{ℕ, ◌+◌, ◌*◌, Option, some, List, replicate, ◌>>=◌}
use everything.Bitmap.{div_round_up}
use everything.Disk.{HostFile, Disk}
use everything.FileSystem.Layout.{fragment_size}
use everything.FileSystem.Inode.{FileHeader}
use everything.FileSystem.Fragments.{copy_bytes, write_fragments}

module _ {F : Type 0} (host : HostFile F) where
  -- The branch of WriteDir for a new length of at most the file's, at time `now`: the bytes written,
  -- the inode that is to be written back, and the disk.
  pub write_inside :
      (ℕ → ℕ → ℕ) → ℕ → FileHeader → List ℕ → ℕ → ℕ → Disk F → Option (ℕ × FileHeader × Disk F)
  write_inside clock now hdr bytes num_bytes position d =
      let new_length : ℕ = position + num_bytes in
      let num_new : ℕ = div_round_up new_length fragment_size in
      do
        buf ← copy_bytes bytes num_bytes (replicate (num_new * fragment_size) 0) 0
        d' ← write_fragments host clock num_new 0 hdr.data_fragments buf d
        let hdr' = record hdr {
          num_bytes = new_length;
          num_fragments = num_new;
          last_modified = now;
        }
        some (num_bytes, hdr', d')
