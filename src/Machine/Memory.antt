-- ===== src/Machine/Memory.antt =====
-- ReadMem after WriteMem, through the linear page table.
use everything.Base.{
  ℕ, zero, suc, ◌+◌, ◌*◌, ◌/◌, ◌%◌, ◌^◌, ◌≤◌, ◌<◌, ◌≡◌, refl, sym, ap, ◌∙◌, true, false, none, some,
  List, inl, inr, get_elem?, set, length, length-set, set-set, get_elem?-set_self, get_elem?-set_ne,
  get_elem?-some, arith, Bool-cases, Option-cases,
}
use everything.Machine.{
  Machine, TranslationEntry, Translated, mapped, raised, broken, entry, find_page, use_entry,
  translate_entry, translate, is_misaligned, memory_size, page_size, read_at, write_at, read_mem,
  write_mem, load_bytes, store_bytes, loaded, is_size, done, translate_used,
}
use everything.Machine.Translation.{
  translate_entry-Went, by_page, translate-Mapped, misaligned-raised,
}

pub length-store_bytes : (n at v : ℕ) (m : List ℕ) → length (store_bytes n at v m) ≡ length m
unfolding store_bytes
length-store_bytes zero at v m = refl
length-store_bytes (suc n) at v m =
    length-store_bytes n (at + 1) (v / 256) (set m at (v % 256)) ∙ length-set m at (v % 256)

below-store_bytes :
    (n at v j : ℕ) (m : List ℕ) → j < at → get_elem? (store_bytes n at v m) j ≡ get_elem? m j
unfolding store_bytes
below-store_bytes zero at v j m h = refl
below-store_bytes (suc n) at v j m h =
    below-store_bytes n (at + 1) (v / 256) j (set m at (v % 256)) (omega arith)
    ∙ get_elem?-set_ne m at j (v % 256) (λ e. omega arith)

-- The number that the `n` low bytes of `v` make.
low_bytes : ℕ → ℕ → ℕ
low_bytes zero v = 0
low_bytes (suc n) v = v % 256 + 256 * low_bytes n (v / 256)

load-store_bytes :
    (n at v : ℕ) (m : List ℕ)
    → at + n ≤ length m
    → load_bytes n at (store_bytes n at v m) ≡ some (low_bytes n v)
unfolding load_bytes store_bytes low_bytes
load-store_bytes zero at v m h = refl
load-store_bytes (suc n) at v m h = rw (
  below-store_bytes n (at + 1) (v / 256) at (set m at (v % 256)) (omega arith),
  get_elem?-set_self m at (v % 256) (omega arith),
  load-store_bytes n (at + 1) (v / 256) (set m at (v % 256))
      (omega (arith, length-set m at (v % 256))),
)

low_bytes-mod : (size v : ℕ) → is_size size ≡ true → low_bytes size v ≡ v % 256 ^ size
unfolding low_bytes
low_bytes-mod zero v h = ground arith
low_bytes-mod (suc zero) v h = omega arith
low_bytes-mod (suc (suc zero)) v h = omega arith
low_bytes-mod (suc (suc (suc zero))) v h = ground arith
low_bytes-mod (suc (suc (suc (suc zero)))) v h = omega arith
low_bytes-mod (suc (suc (suc (suc (suc k))))) v h = ground arith

use_entry-again :
    (e : TranslationEntry) (offset size pa : ℕ) (e' : TranslationEntry)
    → use_entry e offset size true ≡ inl (some (pa, e'))
    → use_entry e' offset size false ≡ inl (some (pa, e'))
unfolding use_entry
use_entry-again e offset size pa e' h = ground arith

find_page-entry :
    (t : List TranslationEntry) (vpn i : ℕ) (e : TranslationEntry)
    → find_page t vpn ≡ entry i e
    → (i ≡ vpn) × (get_elem? t vpn ≡ some e) × (e.valid ≡ true)
unfolding find_page
find_page-entry t vpn i e h = elim (Option-cases (get_elem? t vpn)) [
  | inl n ↦ ground arith
  | inr (x, s) ↦ ground arith
]

find_page-set :
    (t : List TranslationEntry) (vpn : ℕ) (e e' : TranslationEntry)
    → get_elem? t vpn ≡ some e
    → e'.valid ≡ true
    → find_page (set t vpn e') vpn ≡ entry vpn e'
unfolding find_page
find_page-set t vpn e e' h v = ground (arith, get_elem?-set_self t vpn e' (get_elem?-some t vpn h))

-- With a used entry in place, reading maps to the same address and changes nothing.
used_again :
    (m : Machine) (t : List TranslationEntry) (addr size pa : ℕ) (e e' : TranslationEntry)
    (memory : List ℕ)
    → is_misaligned addr size ≡ false
    → m.tlb ≡ none
    → get_elem? t (addr / page_size) ≡ some e
    → e'.valid ≡ true
    → use_entry e' (addr % page_size) size false ≡ inl (some (pa, e'))
    → let n = record m { main_memory = memory; page_table = some (set t (addr / page_size) e') } in
      translate n addr size false ≡ mapped pa n
used_again m t addr size pa e e' memory a no_tlb here v again =
    let t' : List TranslationEntry = set t (addr / page_size) e' in
    let n : Machine = record m { main_memory = memory; page_table = some t' } in
    by_page n addr size false t' a no_tlb refl
    ∙ unfold translate_entry translate_used in
      rw (find_page-set t (addr / page_size) e e' here v, again, set-set t (addr / page_size) e' e')

-- An address that was mapped for a write is mapped to the same place for a read, whatever was
-- written, and the table stays as it is.
read_again :
    (m : Machine) (t : List TranslationEntry) (addr size pa : ℕ) (m' : Machine) (memory : List ℕ)
    → m.tlb ≡ none
    → m.page_table ≡ some t
    → is_misaligned addr size ≡ false
    → translate m addr size true ≡ mapped pa m'
    → translate (record m' { main_memory = memory }) addr size false
      ≡ mapped pa (record m' { main_memory = memory })
read_again m t addr size pa m' memory no_tlb linear a h =
    let w =
      translate_entry-Went (λ u. record m { page_table = some u }) t (addr % page_size) size true
        (find_page t (addr / page_size)) pa m'
        (sym (by_page m addr size true t a no_tlb linear) ∙ h) in
    let found = find_page-entry t (addr / page_size) w.index w.e w.found in
    let same : m' ≡ record m { page_table = some (set t (addr / page_size) w.e') } =
      w.out ∙ ap (λ (i : ℕ). record m { page_table = some (set t i w.e') }) found.0 in
    rw same (
      used_again m t addr size pa w.e w.e' memory a no_tlb found.1
        (ground (arith, w.used.now, found.2))
        (use_entry-again w.e (addr % page_size) size pa w.e' w.how))

write_at-done :
    (m m₁ : Machine) (addr size v : ℕ) (r : Translated)
    → write_at m addr size v r ≡ done tt m₁
    → (pa : ℕ) × (m' : Machine) × (r ≡ mapped pa m')
      × (is_size size ≡ true)
      × (m₁ ≡ record m' { main_memory = store_bytes size pa v m'.main_memory })
unfolding write_at
write_at-done m m₁ addr size v (raised x) h = cc
write_at-done m m₁ addr size v broken h = cc
write_at-done m m₁ addr size v (mapped pa m') h = (pa, m', refl, ground arith, ground arith)

read_mem-mapped :
    (m m' : Machine) (addr size pa : ℕ) {raw : ℕ}
    → translate m addr size false ≡ mapped pa m'
    → is_size size ≡ true
    → load_bytes size pa m'.main_memory ≡ some raw
    → read_mem m addr size ≡ done (loaded size raw) m'
unfolding read_mem read_at
read_mem-mapped m m' addr size pa r s l = rw r (ground arith)

-- With a linear page table, no TLB and the whole memory, if WriteMem of a value at an address
-- succeeds then ReadMem of the same size there gives the value cut to its size (a byte with its
-- sign copied), and leaves the machine as it was.
pub read_mem-write_mem :
    (m m₁ : Machine) (t : List TranslationEntry) (addr size v : ℕ)
    → m.tlb ≡ none
    → m.page_table ≡ some t
    → length m.main_memory ≡ memory_size
    → write_mem m addr size v ≡ done tt m₁
    → read_mem m₁ addr size ≡ done (loaded size (v % 256 ^ size)) m₁
read_mem-write_mem m m₁ t addr size v no_tlb linear full h =
    elim (Bool-cases (is_misaligned addr size)) [
      | inl a ↦ absurd (cc (misaligned-raised m addr size true a, went.2))
      | inr a ↦ rw went.4 (go a)
    ]
  where
    went :
        (pa : ℕ) × (m' : Machine) × (translate m addr size true ≡ mapped pa m')
        × (is_size size ≡ true)
        × (m₁ ≡ record m' { main_memory = store_bytes size pa v m'.main_memory })
    went = write_at-done m m₁ addr size v (translate m addr size true) (unfold write_mem in h)

    pa : ℕ
    pa = went.0

    m' : Machine
    m' = went.1

    memory : List ℕ
    memory = store_bytes size pa v m'.main_memory

    go :
        is_misaligned addr size ≡ false
        → read_mem (record m' { main_memory = memory }) addr size
          ≡ done (loaded size (v % 256 ^ size)) (record m' { main_memory = memory })
    go a =
        let mp = translate-Mapped m m' addr size pa true (inl (no_tlb, (t, linear))) went.2 in
        let fits : pa + size ≤ length m'.main_memory =
          rw mp.same_memory (omega (arith, mp.inside)) in
        let n : Machine = record m' { main_memory = memory } in
        read_mem-mapped n n addr size pa
          (read_again m t addr size pa m' memory no_tlb linear a went.2) went.3
          (load-store_bytes size pa v m'.main_memory fits ∙ ap some (low_bytes-mod size v went.3))
