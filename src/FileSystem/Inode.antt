-- ===== src/FileSystem/Inode.antt =====
-- filesys/filehdr.h and filesys/indirect.h: an inode and an indirect block in memory.
use everything.Base.{
  ℕ, zero, suc, ◌-◌, Option, none, some, List, [], ◌∷◌, ◌++◌, ltb, leb, if◌then◌else◌, assert,
  ◌>>=◌, ◌>>◌,
}

-- NUM_DIRECT_FRAGMENTS
abbrev pub num_direct_fragments : ℕ
num_direct_fragments = 16

-- The `int fragments[128]` of an indirect block, and of the locals that hold a file's fragments.
abbrev pub max_fragments : ℕ
max_fragments = 128

-- FileHeader; `indirect_block` is `none` for -1.
pub record FileHeader : Type 0 where
  pub id : ℕ
  pub type : ℕ
  pub owner_id : ℕ
  pub last_modified : ℕ
  pub last_accessed : ℕ
  pub link_count : ℕ
  pub num_bytes : ℕ
  pub num_fragments : ℕ
  pub data_fragments : List ℕ
  pub indirect_block : Option ℕ

-- The first `n` elements of an array of ints; `none` is a read behind it.
unfoldable pub read_ints : ℕ → List ℕ → Option (List ℕ)
read_ints zero xs = some []
read_ints (suc n) [] = none
read_ints (suc n) (x ∷ xs) = do rest ← read_ints n xs; some (x ∷ rest)

-- An array of `size` ints that holds the first of `xs` and is 0 behind them.
unfoldable pub fill_ints : ℕ → List ℕ → List ℕ
fill_ints zero xs = []
fill_ints (suc size) [] = 0 ∷ fill_ints size []
fill_ints (suc size) (x ∷ xs) = x ∷ fill_ints size xs

-- FileHeader::setDataFragments, with the first `len` ints of the argument.
unfoldable pub set_data_fragments : FileHeader → List ℕ → FileHeader
unfolding fill_ints
set_data_fragments hdr frags = record hdr { data_fragments = fill_ints num_direct_fragments frags }

-- IndirectBlock::setFragments, likewise.
unfoldable pub set_fragments : List ℕ → List ℕ
unfolding fill_ints
set_fragments frags = fill_ints max_fragments frags

-- The fragments of a file, as Allocate, Unlink, ReadAt and WriteAt gather them into an array of 128 ints
-- from the inode and from its indirect block `indirect`.
unfoldable pub gather : FileHeader → List ℕ → Option (List ℕ)
unfolding read_ints
gather hdr indirect =
    let few = read_ints hdr.num_fragments hdr.data_fragments in
    let many = (do
      assert (leb hdr.num_fragments max_fragments)
      direct ← read_ints num_direct_fragments hdr.data_fragments
      rest ← read_ints (hdr.num_fragments - num_direct_fragments) indirect
      some (direct ++ rest)) in
    if ltb num_direct_fragments hdr.num_fragments then many else few
