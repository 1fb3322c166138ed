-- ===== src/Machine/Execute/Examples.antt =====
-- Runs of the simulated computer on a machine with one page.
use everything.Base.{
  ℕ, suc, ◌-◌, ◌*◌, ◌%◌, ◌^◌, ◌≡◌, refl, ap, inl, true, false, none, some, List, [], ◌∷◌, length,
  length-replicate, replicate, arith,
}
use everything.Machine.{
  Machine, TranslationEntry, translate, translate_tables, translate_entry, translate_used,
  find_page, use_entry, read_mem, write_mem, write_at, store_bytes, loaded, done, mapped,
  memory_size, set_reg,
}
use everything.Machine.Word.{is_negative, shr32}
use everything.Machine.Mult.{mult, double, magnitude}
use everything.Machine.Mult.Signed.{mult-signed}
use everything.Machine.Translation.{Mapped, translate-Mapped}
use everything.Machine.Memory.{read_mem-write_mem}
use everything.Machine.Instruction.{Instruction, op_add, op_srl}
use everything.Machine.Execute.{execute, one_instruction, put}
use everything.Machine.Execute.Arithmetic.{srl-negative}
use everything.Machine.Execute.Registers.{IsRunnable}
use everything.Machine.Execute.Registers.Cycle.{Ends, one_instruction-Ends}

-- Virtual page 0 is frame 3.
abbrev page : TranslationEntry
page = record {
  virtual_page = 0;
  physical_page = 3;
  valid = true;
  read_only = false;
  use_bit = false;
  dirty = false;
}

-- Memory is clear but for its first word, which is `addi r2, r0, 5`.
abbrev addi_five : List ℕ
addi_five = 5 ∷ 0 ∷ 2 ∷ 32 ∷ replicate 16380 0

-- As `page`, at frame 0.
abbrev first_page : TranslationEntry
first_page = record page { physical_page = 0 }

abbrev computer : Machine
computer = record {
  registers = replicate 40 0;
  main_memory = addi_five;
  tlb = none;
  page_table = some (first_page ∷ []);
}

abbrev other_computer : Machine
other_computer = record computer { page_table = some (page ∷ []) }

full : length addi_five ≡ memory_size
full = ap (λ (n : ℕ). suc (suc (suc (suc n)))) (length-replicate {A = ℕ} 16380 0)

computer-IsRunnable : IsRunnable computer
computer-IsRunnable = record {
  count = refl;
  loading = omega arith;
  one_table = inl (refl, (first_page ∷ [], refl));
  memory = full;
}

one_instruction-Ends_example : Ends computer (one_instruction computer)
one_instruction-Ends_example = one_instruction-Ends computer computer-IsRunnable

abbrev after_read : Machine
after_read = record computer { page_table = some (record page { use_bit = true } ∷ []) }

goes_to_frame : translate other_computer 124 4 false ≡ mapped 508 after_read
unfolding translate translate_tables translate_entry translate_used find_page use_entry
goes_to_frame = refl

translate-Mapped_example : Mapped other_computer 124 4 508 after_read
translate-Mapped_example =
    translate-Mapped other_computer after_read 124 4 508 false (inl (refl, (page ∷ [], refl)))
      goes_to_frame

abbrev after_write : Machine
after_write = record computer {
  main_memory = 5 ∷ 77 ∷ 2 ∷ 32 ∷ replicate 16380 0;
  page_table = some (record first_page { use_bit = true; dirty = true } ∷ []);
}

written : write_mem computer 1 1 333 ≡ done tt after_write
unfolding write_mem write_at translate translate_tables translate_entry translate_used find_page
    use_entry store_bytes
written = refl

read_mem-write_mem_example : read_mem after_write 1 1 ≡ done (loaded 1 (333 % 256 ^ 1)) after_write
read_mem-write_mem_example =
    read_mem-write_mem computer after_write (first_page ∷ []) 1 1 333 refl refl full written

mult-signed_example :
    double (mult (2 ^ 32 - 7) 6 true) ≡ 2 ^ 64 - magnitude true (2 ^ 32 - 7) * magnitude true 6
mult-signed_example = mult-signed (2 ^ 32 - 7) 6 (omega arith) (omega arith)

-- Register 4 is the largest `int`, register 5 is the least, and 7 is 9.
abbrev loaded_up : Machine
loaded_up = set_reg (set_reg (set_reg computer 4 (2 ^ 31 - 1)) 5 (2 ^ 31)) 7 9

abbrev on_registers : Instruction
on_registers = record { op_code = op_add; rs = 4; rt = 7; rd = 8; extra = 3 }

abbrev shift_five : Instruction
shift_five = record { op_code = op_srl; rs = 0; rt = 5; rd = 8; extra = 4 }

srl-negative_example :
    (v : ℕ) × (execute op_srl loaded_up shift_five ≡ put loaded_up 8 v)
    × (is_negative v ≡ true)
    × (is_negative (shr32 (2 ^ 31) 4) ≡ false)
srl-negative_example = srl-negative loaded_up shift_five refl (omega arith) (omega arith)
