-- ===== src/FileSystem/WriteBack.antt =====
-- FileHeader::writeBack of filesys/filehdr.cc: the 100 bytes of an inode in memory, to its place on the
-- disk. `sizeof(FileHeader)` is that of 25 ints of four bytes, the lowest first.
pub mod Stored
use everything.Base.{ℕ, ◌/◌, ◌%◌, Option, none, some, List, [], ◌∷◌, ◌++◌}
use everything.Disk.{HostFile, Disk, write_length}
use everything.FileSystem.Layout.{SuperBlock, first_sector}
use everything.FileSystem.Inode.{FileHeader}

abbrev pub sizeof_inode : ℕ
sizeof_inode = 100

-- The int `indirect_block`, with -1 as a pattern of 32 bits.
abbrev pub int_of : Option ℕ → ℕ
int_of none = 4294967295
int_of (some fragment) = fragment

-- The members of a FileHeader, in order.
pub inode_ints : FileHeader → List ℕ
inode_ints hdr =
    hdr.id
    ∷ hdr.type
    ∷ hdr.owner_id
    ∷ hdr.last_modified
    ∷ hdr.last_accessed
    ∷ hdr.link_count
    ∷ hdr.num_bytes
    ∷ hdr.num_fragments
    ∷ (hdr.data_fragments ++ (int_of hdr.indirect_block ∷ []))

pub ints_bytes : List ℕ → List ℕ
ints_bytes [] = []
ints_bytes (x ∷ xs) = x % 256 ∷ x / 256 % 256 ∷ x / 65536 % 256 ∷ x / 16777216 % 256 ∷ ints_bytes xs

module _ {F : Type 0} (host : HostFile F) where
  -- FileHeader::writeBack; `clock` has the times of the requests.
  pub write_back : SuperBlock → (ℕ → ℕ) → FileHeader → Disk F → Option (Disk F)
  unfolding inode_ints ints_bytes
  write_back super_block clock hdr d =
      write_length host clock (first_sector super_block hdr.id) sizeof_inode
        (ints_bytes (inode_ints hdr)) d
