-- ===== src/Paging.antt =====
-- MemoryManager::PageReplacement of courses/su/cis657/Assignment2/code/userprog/addrspace.cc. A pointer to a
-- TranslationEntry is a number; the entries that they point to are a function, so that the page tables and
-- the list share them. A page of memory is a list of bytes by its frame; the swap file is a file of the host,
-- as with FILESYS_STUB, and a short read leaves the zeros of bzero.
-- `none` is a failed ASSERT or an access outside memory.
pub mod Store
pub mod Contents
pub mod Load
pub mod Evict
pub mod Replacement
pub mod Space
mod Examples
use everything.Base.{
  ℕ, ◌*◌, Bool, true, false, Option, none, some, List, [], ◌∷◌, ◌==◌, if◌then◌else◌, replicate,
  ◌>>=◌, ◌>>◌,
}
use everything.Bitmap.{Bitmap, find_and_set}
use everything.Disk.{HostFile, padded}
use everything.Machine.{page_size}
use everything.Semaphore.{append, remove_front}

-- TranslationEntry; `physical_page` is `none` for -1.
pub record Entry : Type 0 where
  pub virtual_page : ℕ
  pub swap_index : ℕ
  pub physical_page : Option ℕ
  pub valid : Bool
  pub read_only : Bool
  pub use_bit : Bool
  pub dirty : Bool

pub record Manager (F : Type 0) : Type 0 where
  pub fifo : List ℕ
  pub memory : Bitmap
  pub swap : F
  pub swap_counter : ℕ
  pub entries : ℕ → Entry
  pub frames : ℕ → List ℕ

-- A store with the value at one place replaced.
abbrev pub put_at {ℓ} : {A : Type ℓ} → (ℕ → A) → ℕ → A → ℕ → A
put_at f i a j = if j == i then a else f j

module _ {F : Type 0} (host : HostFile F) where
  -- The first entry of the list gives up its frame, and its page is written to the swap file.
  pub evict : Manager F → Option (ℕ × Manager F)
  evict s = do
    (replacement, fifo') ← remove_front s.fifo
    let entry = s.entries replacement
    ppn ← entry.physical_page
    let swap' = host.write s.swap (entry.swap_index * page_size) (s.frames ppn)
    let entry' = record entry { valid = false; use_bit = false; physical_page = none }
    some (
      ppn,
      record s { fifo = fifo'; swap = swap'; entries = put_at s.entries replacement entry' },
    )

  -- The rest: the page is read into the frame, and its entry put at the end of the list.
  pub load : ℕ → ℕ → Manager F → Option (ℕ × Manager F)
  load tle ppn s =
      let entry = s.entries tle in
      let page = padded page_size (host.read s.swap (entry.swap_index * page_size) page_size) in
      let entry' = record entry { valid = true; use_bit = true; physical_page = some ppn } in
      do
        fifo' ← append s.fifo tle
        some (
          ppn,
          record s {
            fifo = fifo';
            entries = put_at s.entries tle entry';
            frames = put_at s.frames ppn page;
          },
        )

  -- MemoryManager::PageReplacement. Without a free frame and with an empty list, ppn stays -1, and the
  -- bytes before the memory are overwritten.
  pub page_replacement : ℕ → Manager F → Option (ℕ × Manager F)
  unfolding evict load
  page_replacement tle s = do
    (found, memory') ← find_and_set s.memory
    let s' = record s { memory = memory' }
    (ppn, s'') ← elim found [ none ↦ evict s' | some ppn ↦ some (ppn, s') ]
    load tle ppn s''
