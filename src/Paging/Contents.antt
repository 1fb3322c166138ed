-- ===== src/Paging/Contents.antt =====
-- What the memory manager keeps true, and the contents of a page.
use everything.Base.{
  ℕ, ◌*◌, ◌<◌, ◌≡◌, ◌≢◌, true, Option, none, some, List, [], length, if◌then◌else◌,
}
use everything.Bitmap.View.{IsValid, is_marked}
use everything.Disk.{HostFile, padded}
use everything.Semaphore.{is_in_list}
use everything.Paging.Store.{Once}
use everything.Paging.{Entry, Manager}

abbrev pub in_frame : (ℕ → List ℕ) → Option ℕ → List ℕ
in_frame frames none = []
in_frame frames (some p) = frames p

-- The entries of the list are valid; a valid entry has a frame in use of its own; the entries have
-- different places on the swap file.
pub record Sound {F : Type 0} (s : Manager F) : Type 0 where
  pub memory : IsValid s.memory
  pub queued : (id : ℕ) → is_in_list s.fifo id ≡ true → (s.entries id).valid ≡ true
  pub once : Once s.fifo
  pub placed :
      (id : ℕ)
      → (s.entries id).valid ≡ true
      → (p : ℕ) × ((s.entries id).physical_page ≡ some p)
        × (p < s.memory.num_bits)
        × (is_marked s.memory p ≡ true)
  pub full : (p : ℕ) → length (s.frames p) ≡ 128
  pub alone :
      (i j p : ℕ)
      → (s.entries i).valid ≡ true
      → (s.entries j).valid ≡ true
      → (s.entries i).physical_page ≡ some p
      → (s.entries j).physical_page ≡ some p
      → i ≡ j
  pub slots : (i j : ℕ) → (s.entries i).swap_index ≡ (s.entries j).swap_index → i ≡ j

-- A frame that is in use for no valid entry.
pub record Vacant {F : Type 0} (s : Manager F) (p : ℕ) : Type 0 where
  pub in_range : p < s.memory.num_bits
  pub marked : is_marked s.memory p ≡ true
  pub unowned : (id : ℕ) → (s.entries id).valid ≡ true → (s.entries id).physical_page ≢ some p

module _ {F : Type 0} (host : HostFile F) where
  -- The page on the swap file.
  unfoldable pub swapped : F → ℕ → List ℕ
  swapped swap index = padded 128 (host.read swap (index * 128) 128)

  -- The contents of the page of an entry: in its frame, or else on the swap file.
  unfoldable pub content_of : (ℕ → List ℕ) → F → Entry → List ℕ
  unfolding swapped
  content_of frames swap entry =
      if entry.valid then in_frame frames entry.physical_page else swapped swap entry.swap_index

  unfoldable pub content : Manager F → ℕ → List ℕ
  unfolding content_of
  content s id = content_of s.frames s.swap (s.entries id)
