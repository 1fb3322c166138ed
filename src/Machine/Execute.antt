-- ===== src/Machine/Execute.antt =====
-- Machine::OneInstruction of machine/mipssim.cc, without the printing of a traced instruction. Each
-- case of the switch is a clause of `execute`; the longer ones are functions of their own.
pub mod Arithmetic
pub mod Unaligned
pub mod Registers
mod Examples
use everything.Base.{
  ℕ, zero, suc, ◌+◌, ◌-◌, ◌*◌, ◌/◌, ◌%◌, ◌^◌, Bool, true, false, not, ◌&&◌, ◌||◌, ltb, leb, ◌==◌,
  if◌then◌else◌, bit_and, bit_or, bit_xor,
}
use everything.Machine.{
  Machine, Outcome, done, trap, fault, ExceptionType, overflow_exception, address_error_exception,
  syscall_exception, illegal_instr_exception, reg, set_reg, read_mem, write_mem, load_reg,
  load_value_reg, delayed_load, raise_exception, and_then,
}
use everything.Machine.Word.{
  add32, sub32, not32, neg32, shl32, sar32, slt32, sign_extend, is_negative, signs_differ,
}
use everything.Machine.Mult.{mult}
use everything.Machine.Instruction.{
  Instruction, Op, op_add, op_addi, op_addiu, op_addu, op_and, op_andi, op_beq, op_bgez, op_bgezal,
  op_bgtz, op_blez, op_bltz, op_bltzal, op_bne, op_div, op_divu, op_j, op_jal, op_jalr, op_jr,
  op_lb, op_lbu, op_lh, op_lhu, op_lui, op_lw, op_lwl, op_lwr, op_mfhi, op_mflo, op_mthi, op_mtlo,
  op_mult, op_multu, op_nor, op_or, op_ori, op_res, op_sb, op_sh, op_sll, op_sllv, op_slt, op_slti,
  op_sltiu, op_sltu, op_sra, op_srav, op_srl, op_srlv, op_sub, op_subu, op_sw, op_swl, op_swr,
  op_syscall, op_unimp, op_xor, op_xori, decode,
}

abbrev pub hi_reg : ℕ
hi_reg = 32

abbrev pub lo_reg : ℕ
lo_reg = 33

abbrev pub pc_reg : ℕ
pc_reg = 34

abbrev pub next_pc_reg : ℕ
next_pc_reg = 35

abbrev pub prev_pc_reg : ℕ
prev_pc_reg = 36

-- The locals of OneInstruction that outlive the switch: pcAfter, nextLoadReg and nextLoadValue.
pub record Next : Type 0 where
  pub pc_after : ℕ
  pub next_reg : ℕ
  pub next_value : ℕ

-- A case that goes on at `pc` and loads nothing.
abbrev pub go_on : ℕ → Machine → Outcome Next
go_on pc m = done (record { pc_after = pc; next_reg = 0; next_value = 0 }) m

-- The default of pcAfter.
abbrev pub after : Machine → ℕ
after m = add32 (reg m next_pc_reg) 4

-- A case that writes one register.
abbrev pub put : Machine → ℕ → ℕ → Outcome Next
put m r value = go_on (after m) (set_reg m r value)

abbrev pub branch_target : Machine → Instruction → ℕ
branch_target m i = add32 (reg m next_pc_reg) (shl32 i.extra 2)

-- A branch. `linked` is the machine with the return address, if there is one.
pub branch : Machine → Machine → Instruction → Bool → Outcome Next
branch m linked i taken = go_on (if taken then branch_target m i else after m) linked

abbrev pub link : Machine → ℕ → Machine
link m r = set_reg m r (add32 (reg m next_pc_reg) 4)

-- OP_ADD and OP_ADDI: a sum that traps if it overflows; `tested` is the operand whose sign the code
-- compares with the sum's.
pub add_checked : Machine → ℕ → ℕ → ℕ → ℕ → Outcome Next
add_checked m r a b tested =
    let sum : ℕ = add32 a b in
    if not (signs_differ a b) && signs_differ tested sum
    then trap overflow_exception 0 m
    else put m r sum

-- OP_SUB
pub sub_checked : Machine → ℕ → ℕ → ℕ → Outcome Next
sub_checked m r a b =
    let diff : ℕ = sub32 a b in
    if signs_differ a b && signs_differ a diff then trap overflow_exception 0 m else put m r diff

abbrev pub put_hi_lo : Machine → ℕ → ℕ → Outcome Next
put_hi_lo m hi lo = go_on (after m) (set_reg (set_reg m lo_reg lo) hi_reg hi)

abbrev pub magnitude : ℕ → ℕ
magnitude a = if is_negative a then neg32 a else a

-- OP_DIV: C rounds towards 0, and the remainder has the dividend's sign. The quotient of the least
-- number by -1 does not fit an `int`, so that division is undefined.
pub divide : Machine → ℕ → ℕ → Outcome Next
divide m a b =
    let quotient : ℕ = magnitude a / magnitude b in
    let remainder : ℕ = magnitude a % magnitude b in
    if b == 0
    then put_hi_lo m 0 0
    else if a == 2 ^ 31 && b == 2 ^ 32 - 1
    then fault
    else put_hi_lo m (if is_negative a then neg32 remainder else remainder)
        (if signs_differ a b then neg32 quotient else quotient)

-- OP_DIVU
pub divide_unsigned : Machine → ℕ → ℕ → Outcome Next
divide_unsigned m a b = if b == 0 then put_hi_lo m 0 0 else put_hi_lo m (a % b) (a / b)

-- OP_MULT and OP_MULTU
pub multiply_registers : Machine → Instruction → Bool → Outcome Next
multiply_registers m i signed_arith =
    let product = mult (reg m i.rs) (reg m i.rt) signed_arith in put_hi_lo m product.0 product.1

-- OP_J and OP_JAL
abbrev pub jump_target : Machine → Instruction → ℕ
jump_target m i = bit_or (bit_and (after m) 0xf0000000) (shl32 i.extra 2)

-- The effective address.
abbrev pub address : Machine → Instruction → ℕ
address m i = add32 (reg m i.rs) i.extra

-- The end of a load.
abbrev pub load_later : Instruction → ℕ → Machine → Outcome Next
load_later i value m = done (record { pc_after = after m; next_reg = i.rt; next_value = value }) m

-- OP_LB, OP_LBU, OP_LH and OP_LHU: a number of `size` bytes, signed or not.
pub load_part : Machine → Instruction → ℕ → Bool → Outcome Next
load_part m i size signed =
    let tmp : ℕ = address m i in
    let misaligned : Bool = size == 2 && not (tmp % 2 == 0) in
    if misaligned
    then trap address_error_exception tmp m
    else and_then (read_mem m tmp size) (λ value.
      let low : ℕ = value % 256 ^ size in
      load_later i (if signed then sign_extend (8 * size) low else low))

-- OP_LW
pub load_word : Machine → Instruction → Outcome Next
load_word m i =
    let tmp : ℕ = address m i in
    if tmp % 4 == 0
    then and_then (read_mem m tmp 4) (λ value. load_later i value)
    else trap address_error_exception tmp m

-- The switches of OP_LWL, OP_LWR, OP_SWL and OP_SWR on `byte`. The two parts have no bit in common, so
-- the `|` is a sum; a mask of low bits is a remainder, one of high bits takes the remainder away.
pub load_left : ℕ → ℕ → ℕ → ℕ
load_left byte value next =
    if byte == 3
    then value
    else if byte == 2
    then next % 2 ^ 8 + shl32 value 8
    else if byte == 1
    then next % 2 ^ 16 + shl32 value 16
    else next % 2 ^ 24 + shl32 value 24

pub load_right : ℕ → ℕ → ℕ → ℕ
load_right byte value next =
    if byte == 3
    then (next - next % 2 ^ 8) + value / 2 ^ 24
    else if byte == 2
    then (next - next % 2 ^ 16) + value / 2 ^ 16
    else if byte == 1
    then (next - next % 2 ^ 24) + value / 2 ^ 8
    else value

pub store_left : ℕ → ℕ → ℕ → ℕ
store_left byte value word =
    if byte == 3
    then word
    else if byte == 2
    then (value - value % 2 ^ 24) + word / 2 ^ 8
    else if byte == 1
    then (value - value % 2 ^ 16) + word / 2 ^ 16
    else (value - value % 2 ^ 8) + word / 2 ^ 24

pub store_right : ℕ → ℕ → ℕ → ℕ
store_right byte value word =
    if byte == 3
    then value % 2 ^ 24 + shl32 word 24
    else if byte == 2
    then value % 2 ^ 16 + shl32 word 16
    else if byte == 1
    then value % 2 ^ 8 + shl32 word 8
    else word

-- OP_LWL and OP_LWR: the register is read through a load that is still on its way.
pub load_unaligned : (ℕ → ℕ → ℕ → ℕ) → Machine → Instruction → Outcome Next
load_unaligned merge m i =
    let tmp : ℕ = address m i in
    let byte : ℕ = tmp % 4 in
    and_then (read_mem m (tmp - byte) 4) (λ value m'.
      let next : ℕ = if reg m' load_reg == i.rt then reg m' load_value_reg else reg m' i.rt in
      load_later i (merge byte value next) m')

-- OP_SB, OP_SH and OP_SW
pub store : Machine → Instruction → ℕ → Outcome Next
store m i size =
    and_then (write_mem m (address m i) size (reg m i.rt)) (λ _ m'. go_on (after m') m')

-- OP_SWL and OP_SWR
pub store_unaligned : (ℕ → ℕ → ℕ → ℕ) → Machine → Instruction → Outcome Next
store_unaligned merge m i =
    let tmp : ℕ = address m i in
    let byte : ℕ = tmp % 4 in
    and_then (read_mem m (tmp - byte) 4) (λ value m'.
      and_then (write_mem m' (tmp - byte) 4 (merge byte value (reg m' i.rt)))
        (λ _ m''. go_on (after m'') m''))

abbrev pub as_bit : Bool → ℕ
as_bit b = if b then 1 else 0

-- The switch. The shifts right of OP_SRL and OP_SRLV are on the `int` tmp.
pub execute : Op → Machine → Instruction → Outcome Next
execute op_add m i = add_checked m i.rd (reg m i.rs) (reg m i.rt) (reg m i.rs)
execute op_addi m i = add_checked m i.rt (reg m i.rs) i.extra i.extra
execute op_addiu m i = put m i.rt (add32 (reg m i.rs) i.extra)
execute op_addu m i = put m i.rd (add32 (reg m i.rs) (reg m i.rt))
execute op_and m i = put m i.rd (bit_and (reg m i.rs) (reg m i.rt))
execute op_andi m i = put m i.rt (bit_and (reg m i.rs) (i.extra % 2 ^ 16))
execute op_beq m i = branch m m i (reg m i.rs == reg m i.rt)
execute op_bgezal m i =
    let linked = link m 31 in branch m linked i (not (is_negative (reg linked i.rs)))
execute op_bgez m i = branch m m i (not (is_negative (reg m i.rs)))
execute op_bgtz m i = branch m m i (slt32 0 (reg m i.rs))
execute op_blez m i = branch m m i (not (slt32 0 (reg m i.rs)))
execute op_bltzal m i = let linked = link m 31 in branch m linked i (is_negative (reg linked i.rs))
execute op_bltz m i = branch m m i (is_negative (reg m i.rs))
execute op_bne m i = branch m m i (not (reg m i.rs == reg m i.rt))
execute op_div m i = divide m (reg m i.rs) (reg m i.rt)
execute op_divu m i = divide_unsigned m (reg m i.rs) (reg m i.rt)
execute op_jal m i = go_on (jump_target m i) (link m 31)
execute op_j m i = go_on (jump_target m i) m
execute op_jalr m i = let linked = link m i.rd in go_on (reg linked i.rs) linked
execute op_jr m i = go_on (reg m i.rs) m
execute op_lb m i = load_part m i 1 true
execute op_lbu m i = load_part m i 1 false
execute op_lh m i = load_part m i 2 true
execute op_lhu m i = load_part m i 2 false
execute op_lui m i = put m i.rt (shl32 i.extra 16)
execute op_lw m i = load_word m i
execute op_lwl m i = load_unaligned load_left m i
execute op_lwr m i = load_unaligned load_right m i
execute op_mfhi m i = put m i.rd (reg m hi_reg)
execute op_mflo m i = put m i.rd (reg m lo_reg)
execute op_mthi m i = put m hi_reg (reg m i.rs)
execute op_mtlo m i = put m lo_reg (reg m i.rs)
execute op_mult m i = multiply_registers m i true
execute op_multu m i = multiply_registers m i false
execute op_nor m i = put m i.rd (not32 (bit_or (reg m i.rs) (reg m i.rt)))
execute op_or m i = put m i.rd (bit_or (reg m i.rs) (reg m i.rt))
execute op_ori m i = put m i.rt (bit_or (reg m i.rs) (i.extra % 2 ^ 16))
execute op_sb m i = store m i 1
execute op_sh m i = store m i 2
execute op_sll m i = put m i.rd (shl32 (reg m i.rt) i.extra)
execute op_sllv m i = put m i.rd (shl32 (reg m i.rt) (reg m i.rs % 32))
execute op_slt m i = put m i.rd (as_bit (slt32 (reg m i.rs) (reg m i.rt)))
execute op_slti m i = put m i.rt (as_bit (slt32 (reg m i.rs) i.extra))
execute op_sltiu m i = put m i.rt (as_bit (ltb (reg m i.rs) i.extra))
execute op_sltu m i = put m i.rd (as_bit (ltb (reg m i.rs) (reg m i.rt)))
execute op_sra m i = put m i.rd (sar32 (reg m i.rt) i.extra)
execute op_srav m i = put m i.rd (sar32 (reg m i.rt) (reg m i.rs % 32))
execute op_srl m i = put m i.rd (sar32 (reg m i.rt) i.extra)
execute op_srlv m i = put m i.rd (sar32 (reg m i.rt) (reg m i.rs % 32))
execute op_sub m i = sub_checked m i.rd (reg m i.rs) (reg m i.rt)
execute op_subu m i = put m i.rd (sub32 (reg m i.rs) (reg m i.rt))
execute op_sw m i = store m i 4
execute op_swl m i = store_unaligned store_left m i
execute op_swr m i = store_unaligned store_right m i
execute op_syscall m i = trap syscall_exception 0 m
execute op_xor m i = put m i.rd (bit_xor (reg m i.rs) (reg m i.rt))
execute op_xori m i = put m i.rt (bit_xor (reg m i.rs) (i.extra % 2 ^ 16))
execute op_res m i = trap illegal_instr_exception 0 m
execute op_unimp m i = trap illegal_instr_exception 0 m

-- The tail: the delayed load, then the program counters.
pub finish : Next → Machine → Machine
finish next m =
    let m₁ = delayed_load m next.next_reg next.next_value in
    let m₂ = set_reg m₁ prev_pc_reg (reg m₁ pc_reg) in
    let m₃ = set_reg m₂ pc_reg (reg m₂ next_pc_reg) in set_reg m₃ next_pc_reg next.pc_after

-- How an instruction ends: the machine as the next one finds it, or as the kernel's handler does.
pub data Ended : Type 0 where
  finished : Machine → Ended
  trapped : ExceptionType → Machine → Ended
  stopped : Ended

pub ended : Outcome Next → Ended
ended (done next m) = finished (finish next m)
ended (trap exception addr m) = trapped exception (raise_exception m addr)
ended fault = stopped

-- Machine::OneInstruction
pub one_instruction : Machine → Ended
one_instruction m = ended (
    and_then (read_mem m (reg m pc_reg) 4) (λ raw m'. execute (decode raw).op_code m' (decode raw)))
