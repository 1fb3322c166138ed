-- ===== src/Paging/Space/Reached.antt =====
-- A read through the page table reaches the contents of the page.
use everything.Base.{
  ℕ, ◌*◌, ◌+◌, ◌/◌, ◌%◌, ◌≤◌, ◌<◌, ◌≡◌, refl, ap, subst, ◌⊎◌, inr, true, false, some, List, ◌∷◌,
  get_elem?, get_or, arith,
}
use everything.Machine.{memory_size}
use everything.Bitmap.View.{is_marked}
use everything.Disk.{HostFile}
use everything.Paging.{Entry, Manager, put_at, page_replacement}
use everything.Paging.Contents.{Sound, content_of, content}
use everything.Paging.Replacement.{page_replacement-Replaced}
use everything.Paging.Space.{AddrSpace, touched, use_page, translate}

frame_and_offset : (p o : ℕ) → o < 128 → ((p * 128 + o) / 128 ≡ p) × ((p * 128 + o) % 128 ≡ o)
frame_and_offset p o h = (omega arith, omega arith)

module _ {F : Type 0} (host : HostFile F) where
  -- The address that a read of `vaddr` is given holds `byte`.
  pub record Reached (s : Manager F) (space : AddrSpace) (vaddr byte : ℕ) : Type 0 where
    pub paddr : ℕ
    pub entries : ℕ → Entry
    pub returns : translate space s.entries vaddr false ≡ some (inr (paddr, entries))
    pub in_memory : paddr < memory_size
    pub holds : get_or (s.frames (paddr / 128)) (paddr % 128) 0 ≡ byte

  translate-Reached :
      (s : Manager F) (space : AddrSpace) (vaddr id : ℕ)
      → Sound s
      → s.memory.num_bits ≤ 128
      → vaddr / 128 < space.num_pages
      → get_elem? space.page_table (vaddr / 128) ≡ some id
      → (s.entries id).valid ≡ true
      → Reached s space vaddr (get_or (content host s id) (vaddr % 128) 0)
  unfolding translate use_page content content_of
  translate-Reached s space vaddr id ok small low there here =
      let (p, e, in_bits, used) = ok.placed id here in
      let o = vaddr % 128 in
      let fits : p < 128 = omega arith in
      let (frame, offset) = frame_and_offset p (vaddr % 128) (omega arith) in
      record {
        paddr = p * 128 + o;
        entries = put_at s.entries id (touched (s.entries id) false);
        returns = rw (there, e) (ground arith);
        in_memory = omega arith;
        holds = rw (frame, offset, here, e) refl;
      }

  -- The page fault is served and the read tried again.
  pub record Served (s : Manager F) (space : AddrSpace) (tle vaddr byte : ℕ) : Type 0 where
    p : ℕ
    out : Manager F
    replaced : page_replacement host tle s ≡ some (p, out)
    sound : Sound out
    reached : Reached out space vaddr byte

  -- In a sound state with at most 128 frames, one of them clear or a list that is not empty, and an
  -- address in the page of an entry that is not valid, PageReplacement succeeds and leaves a sound
  -- state, and Translate of the address for reading then succeeds with a physical address inside
  -- the memory, which holds the byte that the page had there before, in the swap file.
  pub page_replacement-translate :
      (tle vaddr : ℕ) (s : Manager F) (space : AddrSpace)
      → Sound s
      → s.memory.num_bits ≤ 128
      → (s.entries tle).valid ≡ false
      → ((q : ℕ) × (q < s.memory.num_bits) × (is_marked s.memory q ≡ false))
        ⊎ ((r : ℕ) × (rest : List ℕ) × (s.fifo ≡ r ∷ rest))
      → vaddr / 128 < space.num_pages
      → get_elem? space.page_table (vaddr / 128) ≡ some tle
      → Served s space tle vaddr (get_or (content host s tle) (vaddr % 128) 0)
  page_replacement-translate tle vaddr s space ok small absent room low there =
      let r = page_replacement-Replaced host tle s ok absent room in
      let same = ap (λ (page : List ℕ). get_or page (vaddr % 128) 0) (r.same tle) in
      let few : r.out.memory.num_bits ≤ 128 = rw r.sized small in
      record {
        p = r.p;
        out = r.out;
        replaced = r.returns;
        sound = r.sound;
        reached =
            subst (Reached r.out space vaddr) same
              (translate-Reached r.out space vaddr tle r.sound few low there r.present.0);
      }
