-- ===== src/Machine.antt =====
-- machine/: the simulated MIPS computer. This file is its state, and machine/translate.cc on it.
-- A register is its pattern of 32 bits, a number below 2 ^ 32; memory is a list of bytes. The build
-- defines SIM_FIX and neither USE_TLB nor HOST_IS_BIG_ENDIAN, so WordToHost and its kin do nothing.
pub mod Word
pub mod Mult
pub mod Translation
pub mod Memory
pub mod Instruction
pub mod Execute
use everything.Base.{
  ℕ, zero, suc, ◌+◌, ◌-◌, ◌*◌, ◌/◌, ◌%◌, ◌^◌, Bool, true, false, not, ◌&&◌, ◌||◌, Option, none,
  some, List, [], ◌∷◌, ◌⊎◌, inl, inr, ltb, leb, ◌==◌, if◌then◌else◌, get_elem?, get_or, set, assert,
  ◌>>=◌, ◌>>◌,
}
use Word.{sign_extend}

abbrev pub page_size : ℕ
page_size = 128

abbrev pub num_phys_pages : ℕ
num_phys_pages = 128

abbrev pub memory_size : ℕ
memory_size = num_phys_pages * page_size

pub data ExceptionType : Type 0 where
  syscall_exception page_fault_exception read_only_exception : ExceptionType
  bus_error_exception address_error_exception overflow_exception : ExceptionType
  illegal_instr_exception : ExceptionType

-- The frame is the pattern of the `int` physicalPage, which the code reads as unsigned.
pub record TranslationEntry : Type 0 where
  pub virtual_page : ℕ
  pub physical_page : ℕ
  pub valid : Bool
  pub read_only : Bool
  pub use_bit : Bool
  pub dirty : Bool

-- `none` is a NULL table. pageTableSize is the length of the page table.
pub record Machine : Type 0 where
  pub registers : List ℕ
  pub main_memory : List ℕ
  pub tlb : Option (List TranslationEntry)
  pub page_table : Option (List TranslationEntry)

-- What a part of an instruction comes to: a value and the machine, a trap to the kernel, with the
-- cause and the address that RaiseException is given, or a failed ASSERT or undefined access.
pub data Outcome {ℓ} (A : Type ℓ) : Type ℓ where
  done : A → Machine → Outcome A
  trap : ExceptionType → ℕ → Machine → Outcome A
  fault : Outcome A

abbrev pub and_then {ℓ κ} :
    {A : Type ℓ} {B : Type κ} → Outcome A → (A → Machine → Outcome B) → Outcome B
and_then (done a m) f = f a m
and_then (trap e addr m) f = trap e addr m
and_then fault f = fault

-- The entry that is used, by its place, or the exception.
pub data Found : Type 0 where
  entry : ℕ → TranslationEntry → Found
  refused : ExceptionType → Found

-- The linear page table.
pub find_page : List TranslationEntry → ℕ → Found
find_page table vpn = elim (get_elem? table vpn) [
  | none ↦ refused address_error_exception
  | some e ↦ if e.valid then entry vpn e else refused page_fault_exception
]

-- The loop over the TLB at slot `i`.
pub find_slot : ℕ → List TranslationEntry → ℕ → Found
find_slot i [] vpn = refused page_fault_exception
find_slot i (e ∷ es) vpn =
    let rest = find_slot (i + 1) es vpn in
    if e.valid && e.virtual_page == vpn then entry i e else rest

-- The checks on the entry that was found, and its use and dirty bits; the result is the physical
-- address and the entry to store.
pub use_entry : TranslationEntry → ℕ → ℕ → Bool → Option (ℕ × TranslationEntry) ⊎ ExceptionType
use_entry e offset size writing =
    if e.read_only && writing
    then inr read_only_exception
    else if leb num_phys_pages e.physical_page
    then inr bus_error_exception
    else (let phys_addr : ℕ = e.physical_page * page_size + offset in
        if leb (phys_addr + size) memory_size
        then inl (
            some
              (phys_addr, record e { use_bit = true; dirty = if writing then true else e.dirty }))
        else inl none)

-- The test for an alignment error; `virtAddr & 0x3` is the remainder by 4.
abbrev pub is_misaligned : ℕ → ℕ → Bool
is_misaligned addr size = size == 4 && not (addr % 4 == 0) || size == 2 && not (addr % 2 == 0)

-- What Translate comes to: a physical address, an exception, or a failed ASSERT.
pub data Translated : Type 0 where
  mapped : ℕ → Machine → Translated
  raised : ExceptionType → Translated
  broken : Translated

-- What is stored and returned once the entry at `i` has been used; `put` stores a table back.
pub translate_used :
    (List TranslationEntry → Machine)
    → List TranslationEntry
    → ℕ
    → Option (ℕ × TranslationEntry) ⊎ ExceptionType
    → Translated
translate_used put table i (inr exception) = raised exception
translate_used put table i (inl none) = broken
translate_used put table i (inl (some (phys_addr, e))) = mapped phys_addr (put (set table i e))

-- The rest of Translate on what was found.
pub translate_entry :
    (List TranslationEntry → Machine) → List TranslationEntry → Found → ℕ → ℕ → Bool → Translated
unfolding use_entry translate_used
translate_entry put table (refused e) offset size writing = raised e
translate_entry put table (entry i e) offset size writing =
    translate_used put table i (use_entry e offset size writing)

-- The ASSERTs that there is a TLB or a page table, but not both.
pub translate_tables :
    Machine
    → Option (List TranslationEntry)
    → Option (List TranslationEntry)
    → ℕ
    → ℕ
    → Bool
    → Translated
unfolding translate_entry find_page find_slot
translate_tables m (some tlb) (some table) addr size writing = broken
translate_tables m none none addr size writing = broken
translate_tables m none (some table) addr size writing =
    translate_entry (λ t. record m { page_table = some t }) table
      (find_page table (addr / page_size)) (addr % page_size) size writing
translate_tables m (some tlb) none addr size writing =
    translate_entry (λ t. record m { tlb = some t }) tlb (find_slot 0 tlb (addr / page_size))
      (addr % page_size) size writing

-- Machine::Translate
pub translate : Machine → ℕ → ℕ → Bool → Translated
unfolding translate_tables
translate m addr size writing =
    if is_misaligned addr size
    then raised address_error_exception
    else translate_tables m m.tlb m.page_table addr size writing

-- Bytes of memory, least significant first, as the host reads them.
pub load_bytes : ℕ → ℕ → List ℕ → Option ℕ
load_bytes zero at memory = some 0
load_bytes (suc n) at memory = do
  low ← get_elem? memory at
  high ← load_bytes n (at + 1) memory
  some (low + 256 * high)

pub store_bytes : ℕ → ℕ → ℕ → List ℕ → List ℕ
store_bytes zero at value memory = memory
store_bytes (suc n) at value memory =
    store_bytes n (at + 1) (value / 256) (set memory at (value % 256))

-- The switch of ReadMem: a byte is a signed `char`, a short is not signed.
pub loaded : ℕ → ℕ → ℕ
loaded size raw = if size == 1 then sign_extend 8 raw else raw

abbrev pub is_size : ℕ → Bool
is_size size = size == 1 || size == 2 || size == 4

-- The rest of ReadMem on the translation. A failed one is left to RaiseException.
pub read_at : Machine → ℕ → ℕ → Translated → Outcome ℕ
read_at m addr size (raised exception) = trap exception addr m
read_at m addr size broken = fault
read_at m addr size (mapped phys_addr m') =
    elim (assert (is_size size) >> load_bytes size phys_addr m'.main_memory) [
      | none ↦ fault
      | some raw ↦ done (loaded size raw) m'
    ]

-- Machine::ReadMem
pub read_mem : Machine → ℕ → ℕ → Outcome ℕ
unfolding read_at translate load_bytes loaded
read_mem m addr size = read_at m addr size (translate m addr size false)

-- The rest of WriteMem on the translation.
pub write_at : Machine → ℕ → ℕ → ℕ → Translated → Outcome (Unit {0})
write_at m addr size value (raised exception) = trap exception addr m
write_at m addr size value broken = fault
write_at m addr size value (mapped phys_addr m') =
    if is_size size
    then done tt (record m' { main_memory = store_bytes size phys_addr value m'.main_memory })
    else fault

-- Machine::WriteMem
pub write_mem : Machine → ℕ → ℕ → ℕ → Outcome (Unit {0})
unfolding write_at translate store_bytes
write_mem m addr size value = write_at m addr size value (translate m addr size true)

abbrev pub bad_vaddr_reg : ℕ
bad_vaddr_reg = 39

abbrev pub load_reg : ℕ
load_reg = 37

abbrev pub load_value_reg : ℕ
load_value_reg = 38

abbrev pub reg : Machine → ℕ → ℕ
reg m i = get_or m.registers i 0

abbrev pub set_reg : Machine → ℕ → ℕ → Machine
set_reg m i value = record m { registers = set m.registers i value }

-- Machine::DelayedLoad
pub delayed_load : Machine → ℕ → ℕ → Machine
delayed_load m next_reg next_value =
    let m₁ = set_reg m (reg m load_reg) (reg m load_value_reg) in
    let m₂ = set_reg m₁ load_reg next_reg in
    let m₃ = set_reg m₂ load_value_reg next_value in set_reg m₃ 0 0

-- Machine::RaiseException up to its call of ExceptionHandler.
pub raise_exception : Machine → ℕ → Machine
unfolding delayed_load
raise_exception m bad_vaddr = delayed_load (set_reg m bad_vaddr_reg bad_vaddr) 0 0
