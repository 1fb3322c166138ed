-- ===== src/Paging/Space.antt =====
-- AddrSpace::Translate of courses/su/cis657/Assignment2/code/userprog/addrspace.cc, and a read after a
-- page fault. NumPhysPages is an int there, so that a frame of -1 is not refused as too big.
pub mod Reached
use everything.Base.{
  ℕ, ◌*◌, ◌+◌, ◌/◌, ◌%◌, Bool, true, Option, none, some, List, ◌⊎◌, inl, inr, get_elem?, leb, ltb,
  ◌&&◌, if◌then◌else◌, ◌>>=◌, ◌||◌, assert, ◌>>◌,
}
use everything.Machine.{
  ExceptionType, address_error_exception, read_only_exception, bus_error_exception, page_size,
  num_phys_pages, memory_size,
}
use everything.Paging.{Entry, put_at}

-- The page table by the addresses of its entries.
pub record AddrSpace : Type 0 where
  pub page_table : List ℕ
  pub num_pages : ℕ

abbrev pub touched : Entry → Bool → Entry
touched pte is_read_write = record pte { use_bit = true; dirty = is_read_write || pte.dirty }

-- The entry is found and writable: its use and dirty bits, the frame and the test of the address. With a
-- frame of -1 the address is near 2 ^ 32, and the ASSERT fails.
pub use_page : (ℕ → Entry) → ℕ → ℕ → Bool → Option (ExceptionType ⊎ (ℕ × (ℕ → Entry)))
use_page entries id offset is_read_write = elim (entries id).physical_page [
  | none ↦ none
  | some pfn ↦ if leb num_phys_pages pfn then some (inl bus_error_exception) else (do
    assert (ltb (pfn * page_size + offset) memory_size)
    some (inr (pfn * page_size + offset, put_at entries id (touched (entries id) is_read_write))))
]

pub translate : AddrSpace → (ℕ → Entry) → ℕ → Bool → Option (ExceptionType ⊎ (ℕ × (ℕ → Entry)))
unfolding use_page
translate space entries vaddr is_read_write =
    let vpn = vaddr / page_size in
    let offset = vaddr % page_size in
    if leb space.num_pages vpn then some (inl address_error_exception) else (do
      id ← get_elem? space.page_table vpn
      if is_read_write && (entries id).read_only
          then some (inl read_only_exception)
          else use_page entries id offset is_read_write)
