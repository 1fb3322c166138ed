-- ===== src/Machine/Translation.antt =====
-- Machine::Translate, ReadMem and WriteMem.
use everything.Base.{
  ℕ, ◌+◌, ◌*◌, ◌/◌, ◌%◌, ◌≤◌, ◌≡◌, ◌≢◌, refl, sym, ◌∙◌, Bool, true, false, ◌&&◌, ◌||◌, Option, none,
  some, List, ◌⊎◌, inl, inr, set, arith, Bool-cases,
}
use everything.Machine.{
  Machine, TranslationEntry, ExceptionType, mapped, raised, broken, Found, entry, refused,
  find_page, find_slot, use_entry, translate_entry, translate_tables, translate, is_misaligned,
  memory_size, page_size, is_size, translate_used, address_error_exception,
}

-- What the use of an entry promises.
pub record Used (e : TranslationEntry) (offset size : ℕ) (writing : Bool) (pa : ℕ)
    (e' : TranslationEntry) : Type 0 where
  pub place : pa ≡ e.physical_page * 128 + offset
  pub inside : pa + size ≤ memory_size
  pub allowed : (e.read_only && writing) ≡ false
  pub now : e' ≡ record e { use_bit = true; dirty = writing || e.dirty }

use_entry-Used :
    (e e' : TranslationEntry) (offset size : ℕ) (writing : Bool) (pa : ℕ)
    → use_entry e offset size writing ≡ inl (some (pa, e'))
    → Used e offset size writing pa e'
unfolding use_entry
use_entry-Used e e' offset size writing pa h = ground arith

-- With the offset and the size of an aligned access the last ASSERT holds.
use_entry-safe :
    (e : TranslationEntry) (offset size : ℕ) (writing : Bool)
    → offset + size ≤ 128
    → use_entry e offset size writing ≢ inl none
unfolding use_entry
use_entry-safe e offset size writing h = ground arith

-- How a translation by one table went.
pub record Went (put : List TranslationEntry → Machine) (table : List TranslationEntry) (f : Found)
    (offset size : ℕ) (writing : Bool) (pa : ℕ) (m' : Machine) : Type 0 where
  pub index : ℕ
  pub e : TranslationEntry
  pub e' : TranslationEntry
  pub found : f ≡ entry index e
  pub used : Used e offset size writing pa e'
  pub out : m' ≡ put (set table index e')
  pub how : use_entry e offset size writing ≡ inl (some (pa, e'))

module _ (put : List TranslationEntry → Machine) (table : List TranslationEntry) (offset size : ℕ)
    (writing : Bool) where
  used-Went :
      (i : ℕ) (e : TranslationEntry) (u : Option (ℕ × TranslationEntry) ⊎ ExceptionType) (pa : ℕ)
      (m' : Machine)
      → use_entry e offset size writing ≡ u
      → translate_used put table i u ≡ mapped pa m'
      → Went put table (entry i e) offset size writing pa m'
  unfolding translate_used
  used-Went i e (inr x) pa m' s h = cc
  used-Went i e (inl none) pa m' s h = cc
  used-Went i e (inl (some (p, e'))) pa m' s h =
      let same : p ≡ pa = ground arith in
      record {
        index = i;
        e = e;
        e' = e';
        found = refl;
        used = use_entry-Used e e' offset size writing pa (rw (← same) s);
        out = ground arith;
        how = rw (← same) s;
      }

  pub translate_entry-Went :
      (f : Found) (pa : ℕ) (m' : Machine)
      → translate_entry put table f offset size writing ≡ mapped pa m'
      → Went put table f offset size writing pa m'
  unfolding translate_entry
  translate_entry-Went (refused x) pa m' h = cc
  translate_entry-Went (entry i e) pa m' h =
      used-Went i e (use_entry e offset size writing) pa m' refl h

  translate_entry-safe :
      (f : Found) → offset + size ≤ 128 → translate_entry put table f offset size writing ≢ broken
  translate_entry-safe (refused x) l h = unfold translate_entry in cc
  translate_entry-safe (entry i e) l h =
      go (use_entry e offset size writing) refl (unfold translate_entry in h)
    where
      go :
          (u : Option (ℕ × TranslationEntry) ⊎ ExceptionType)
          → use_entry e offset size writing ≡ u
          → translate_used put table i u ≡ broken
          → ⊥
      go (inr x) s k = unfold translate_used in cc
      go (inl none) s k = use_entry-safe e offset size writing l s
      go (inl (some (p, e'))) s k = unfold translate_used in cc

-- One of the two tables is there, and not both.
abbrev pub HasOneTable : Machine → Type 0
HasOneTable m =
    ((m.tlb ≡ none) × ((t : List TranslationEntry) × (m.page_table ≡ some t)))
    ⊎ ((m.page_table ≡ none) × ((t : List TranslationEntry) × (m.tlb ≡ some t)))

-- What a mapped address promises, by either table.
pub record Mapped (m : Machine) (addr size : ℕ) (pa : ℕ) (m' : Machine) : Type 0 where
  pub inside : pa + size ≤ memory_size
  pub same_offset : pa % 128 ≡ addr % 128
  pub same_memory : m'.main_memory ≡ m.main_memory
  pub same_registers : m'.registers ≡ m.registers
  pub one_table : HasOneTable m'

translate-tables :
    (m : Machine) (addr size : ℕ) (writing : Bool)
    → is_misaligned addr size ≡ false
    → translate m addr size writing ≡ translate_tables m m.tlb m.page_table addr size writing
unfolding translate
translate-tables m addr size writing a = rw a

pub by_page :
    (m : Machine) (addr size : ℕ) (writing : Bool) (t : List TranslationEntry)
    → is_misaligned addr size ≡ false
    → m.tlb ≡ none
    → m.page_table ≡ some t
    → translate m addr size writing
      ≡ translate_entry
          (λ u. record m { page_table = some u })
          t
          (find_page t (addr / page_size))
          (addr % page_size)
          size
          writing
by_page m addr size writing t a n p =
    translate-tables m addr size writing a ∙ rw (n, p) (unfold translate_tables in refl)

by_tlb :
    (m : Machine) (addr size : ℕ) (writing : Bool) (t : List TranslationEntry)
    → is_misaligned addr size ≡ false
    → m.page_table ≡ none
    → m.tlb ≡ some t
    → translate m addr size writing
      ≡ translate_entry
          (λ u. record m { tlb = some u })
          t
          (find_slot 0 t (addr / page_size))
          (addr % page_size)
          size
          writing
by_tlb m addr size writing t a n p =
    translate-tables m addr size writing a ∙ rw (n, p) (unfold translate_tables in refl)

aligned_fits :
    (addr size : ℕ)
    → is_size size ≡ true
    → is_misaligned addr size ≡ false
    → addr % 128 + size ≤ 128
aligned_fits addr size s a = ground arith

pub misaligned-raised :
    (m : Machine) (addr size : ℕ) (writing : Bool)
    → is_misaligned addr size ≡ true
    → translate m addr size writing ≡ raised address_error_exception
unfolding translate
misaligned-raised m addr size writing a = rw a

-- With exactly one of page table and TLB and a size of 1, 2 or 4, Translate fails none of its
-- ASSERTs.
pub translate-safe :
    (m : Machine) (addr size : ℕ) (writing : Bool)
    → HasOneTable m
    → is_size size ≡ true
    → translate m addr size writing ≢ broken
translate-safe m addr size writing one s h = elim (Bool-cases (is_misaligned addr size)) [
  | inl a ↦ absurd (cc (misaligned-raised m addr size writing a))
  | inr a ↦ go a one
]
  where
    go : is_misaligned addr size ≡ false → HasOneTable m → ⊥
    go a (inl (n, (t, p))) =
        translate_entry-safe _ t (addr % page_size) size writing _ (aligned_fits addr size s a)
          (sym (by_page m addr size writing t a n p) ∙ h)
    go a (inr (n, (t, p))) =
        translate_entry-safe _ t (addr % page_size) size writing _ (aligned_fits addr size s a)
          (sym (by_tlb m addr size writing t a n p) ∙ h)

-- With exactly one of page table and TLB, an address that Translate maps lies with its bytes inside
-- the memory, at the offset in its frame that the virtual address has in its page; registers and
-- memory stay, and there is still exactly one table.
pub translate-Mapped :
    (m m' : Machine) (addr size pa : ℕ) (writing : Bool)
    → HasOneTable m
    → translate m addr size writing ≡ mapped pa m'
    → Mapped m addr size pa m'
translate-Mapped m m' addr size pa writing one h = elim (Bool-cases (is_misaligned addr size)) [
  | inl a ↦ absurd (cc (misaligned-raised m addr size writing a))
  | inr a ↦ go a one
]
  where
    go : is_misaligned addr size ≡ false → HasOneTable m → Mapped m addr size pa m'
    go a (inl (n, (t, p))) =
        let w =
          translate_entry-Went _ t (addr % page_size) size writing _ pa m'
            (sym (by_page m addr size writing t a n p) ∙ h) in
        record {
          inside = w.used.inside;
          same_offset = omega (arith, w.used.place);
          same_memory = rw w.out;
          same_registers = rw w.out;
          one_table = rw w.out (inl (n, (set t w.index w.e', refl)));
        }
    go a (inr (n, (t, p))) =
        let w =
          translate_entry-Went _ t (addr % page_size) size writing _ pa m'
            (sym (by_tlb m addr size writing t a n p) ∙ h) in
        record {
          inside = w.used.inside;
          same_offset = omega (arith, w.used.place);
          same_memory = rw w.out;
          same_registers = rw w.out;
          one_table = rw w.out (inr (n, (set t w.index w.e', refl)));
        }
