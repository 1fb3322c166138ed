-- ===== src/Machine/Instruction.antt =====
-- Instruction of machine/mipssim.cc, and the tables of machine/mipssim.h that Decode reads.
use everything.Base.{ℕ, ◌/◌, ◌%◌, ◌^◌, ◌<◌, List, [], ◌∷◌, get_or, ◌==◌, if◌then◌else◌, arith}
use everything.Machine.Word.{sign_extend}

-- The OP_ codes that the tables hold.
pub data Op : Type 0 where
  op_add op_addi op_addiu op_addu op_and op_andi op_beq op_bgez op_bgezal op_bgtz op_blez op_bltz :
      Op
  op_bltzal op_bne op_div op_divu op_j op_jal op_jalr op_jr op_lb op_lbu op_lh op_lhu op_lui op_lw :
      Op
  op_lwl op_lwr op_mfhi op_mflo op_mthi op_mtlo op_mult op_multu op_nor op_or op_ori op_sb op_sh :
      Op
  op_sll op_sllv op_slt op_slti op_sltiu op_sltu op_sra op_srav op_srl op_srlv op_sub op_subu
        op_sw :
      Op
  op_swl op_swr op_xor op_xori op_syscall op_unimp op_res : Op

-- What opTable has in its opCode field.
pub data Code : Type 0 where
  op : Op → Code
  special bcond : Code

pub data Format : Type 0 where
  ifmt jfmt rfmt : Format

abbrev i_row : Op → Code × Format
i_row o = (op o, ifmt)

abbrev pub op_table : List (Code × Format)
op_table =
    (special, rfmt)
    ∷ (bcond, ifmt)
    ∷ (op op_j, jfmt)
    ∷ (op op_jal, jfmt)
    ∷ i_row op_beq
    ∷ i_row op_bne
    ∷ i_row op_blez
    ∷ i_row op_bgtz
    ∷ i_row op_addi
    ∷ i_row op_addiu
    ∷ i_row op_slti
    ∷ i_row op_sltiu
    ∷ i_row op_andi
    ∷ i_row op_ori
    ∷ i_row op_xori
    ∷ i_row op_lui
    ∷ i_row op_unimp
    ∷ i_row op_unimp
    ∷ i_row op_unimp
    ∷ i_row op_unimp
    ∷ i_row op_res
    ∷ i_row op_res
    ∷ i_row op_res
    ∷ i_row op_res
    ∷ i_row op_res
    ∷ i_row op_res
    ∷ i_row op_res
    ∷ i_row op_res
    ∷ i_row op_res
    ∷ i_row op_res
    ∷ i_row op_res
    ∷ i_row op_res
    ∷ i_row op_lb
    ∷ i_row op_lh
    ∷ i_row op_lwl
    ∷ i_row op_lw
    ∷ i_row op_lbu
    ∷ i_row op_lhu
    ∷ i_row op_lwr
    ∷ i_row op_res
    ∷ i_row op_sb
    ∷ i_row op_sh
    ∷ i_row op_swl
    ∷ i_row op_sw
    ∷ i_row op_res
    ∷ i_row op_res
    ∷ i_row op_swr
    ∷ i_row op_res
    ∷ i_row op_unimp
    ∷ i_row op_unimp
    ∷ i_row op_unimp
    ∷ i_row op_unimp
    ∷ i_row op_res
    ∷ i_row op_res
    ∷ i_row op_res
    ∷ i_row op_res
    ∷ i_row op_unimp
    ∷ i_row op_unimp
    ∷ i_row op_unimp
    ∷ i_row op_unimp
    ∷ i_row op_res
    ∷ i_row op_res
    ∷ i_row op_res
    ∷ i_row op_res
    ∷ []

abbrev pub special_table : List Op
special_table =
    op_sll ∷ op_res ∷ op_srl ∷ op_sra ∷ op_sllv ∷ op_res ∷ op_srlv ∷ op_srav ∷ op_jr ∷ op_jalr
    ∷ op_res ∷ op_res ∷ op_syscall ∷ op_unimp ∷ op_res ∷ op_res ∷ op_mfhi ∷ op_mthi ∷ op_mflo
    ∷ op_mtlo ∷ op_res ∷ op_res ∷ op_res ∷ op_res ∷ op_mult ∷ op_multu ∷ op_div ∷ op_divu ∷ op_res
    ∷ op_res ∷ op_res ∷ op_res ∷ op_add ∷ op_addu ∷ op_sub ∷ op_subu ∷ op_and ∷ op_or ∷ op_xor
    ∷ op_nor ∷ op_res ∷ op_res ∷ op_slt ∷ op_sltu ∷ op_res ∷ op_res ∷ op_res ∷ op_res ∷ op_res
    ∷ op_res ∷ op_res ∷ op_res ∷ op_res ∷ op_res ∷ op_res ∷ op_res ∷ op_res ∷ op_res ∷ op_res
    ∷ op_res ∷ op_res ∷ op_res ∷ op_res ∷ op_res ∷ []

pub record Instruction : Type 0 where
  pub op_code : Op
  pub rs : ℕ
  pub rt : ℕ
  pub rd : ℕ
  pub extra : ℕ

-- The immediate, shift amount or target.
pub extra_of : Format → ℕ → ℕ
extra_of ifmt value = sign_extend 16 (value % 2 ^ 16)
extra_of rfmt value = (value / 2 ^ 6) % 2 ^ 5
extra_of jfmt value = value % 2 ^ 26

-- The operation. `value & 0x1f0000` is rt times 2 ^ 16, so the tests on it are tests on rt.
pub op_code_of : Code → ℕ → Op
op_code_of (op o) value = o
op_code_of special value = get_or special_table (value % 2 ^ 6) op_res
op_code_of bcond value =
    let i : ℕ = (value / 2 ^ 16) % 2 ^ 5 in
    if i == 0
    then op_bltz
    else if i == 1
    then op_bgez
    else if i == 16
    then op_bltzal
    else if i == 17
    then op_bgezal
    else op_unimp

-- Instruction::Decode
pub decode : ℕ → Instruction
unfolding extra_of op_code_of
decode value =
    let row : Code × Format = get_or op_table ((value / 2 ^ 26) % 2 ^ 6) (op op_res, ifmt) in
    record {
      op_code = op_code_of row.0 value;
      rs = (value / 2 ^ 21) % 2 ^ 5;
      rt = (value / 2 ^ 16) % 2 ^ 5;
      rd = (value / 2 ^ 11) % 2 ^ 5;
      extra = extra_of row.1 value;
    }

-- The register fields name one of the 32 general registers.
abbrev pub HasRegisters : Instruction → Type 0
HasRegisters i = (i.rs < 32) × (i.rt < 32) × (i.rd < 32)

pub decode-HasRegisters : (value : ℕ) → HasRegisters (decode value)
unfolding decode
decode-HasRegisters value = (omega arith, omega arith, omega arith)
