-- ===== src/Machine/Execute/Registers/Cases.antt =====
-- Each case of the switch of machine/mipssim.cc on a machine that can run.
use everything.Base.{
  ℕ, ◌-◌, ◌/◌, ◌%◌, ◌^◌, ◌<◌, ◌≡◌, refl, ◌∙◌, Bool, true, not, ◌&&◌, ◌==◌, Bool-cases, inl, inr,
  arith,
}
use everything.Machine.{
  Machine, Outcome, done, trap, fault, reg, read_mem, write_mem, and_then, is_size,
}
use everything.Machine.Instruction.{
  Instruction, HasRegisters, Op, op_add, op_addi, op_addiu, op_addu, op_and, op_andi, op_beq,
  op_bgezal, op_bgez, op_bgtz, op_blez, op_bltzal, op_bltz, op_bne, op_div, op_divu, op_jal, op_j,
  op_jalr, op_jr, op_lb, op_lbu, op_lh, op_lhu, op_lui, op_lw, op_lwl, op_lwr, op_mfhi, op_mflo,
  op_mthi, op_mtlo, op_mult, op_multu, op_nor, op_or, op_ori, op_sb, op_sh, op_sll, op_sllv, op_slt,
  op_slti, op_sltiu, op_sltu, op_sra, op_srav, op_srl, op_srlv, op_sub, op_subu, op_sw, op_swl,
  op_swr, op_syscall, op_xor, op_xori, op_res, op_unimp,
}
use everything.Machine.Execute.{
  Next, execute, put, go_on, branch, link, add_checked, sub_checked, divide, divide_unsigned,
  multiply_registers, address, load_later, load_part, load_word, load_unaligned, store,
  store_unaligned, after,
}
use everything.Machine.Word.{add32, sub32, signs_differ}
use everything.Machine.Execute.Registers.{
  IsRunnable, Kept, Keeps, Kept-refl, Kept-same, set_reg-Kept, trap-Keeps, put-Keeps,
  put_hi_lo-Keeps,
}
use everything.Machine.Execute.Registers.Access.{
  Accessed, read_mem-Accessed, Wrote, write_mem-Wrote,
}

-- The one case that C++ leaves undefined: the least number divided by -1.
abbrev pub Undefined : Op → Machine → Instruction → Type 0
Undefined o m i = (o ≡ op_div) × (reg m i.rs ≡ 2 ^ 31) × (reg m i.rt ≡ 2 ^ 32 - 1)

Keeps-weaken : (why : Type 0) (m : Machine) (o : Outcome Next) → Keeps ⊥ m o → Keeps why m o
Keeps-weaken why m (done n m') k = k
Keeps-weaken why m (trap e addr m') k = k
Keeps-weaken why m fault k = absurd k

module _ (m : Machine) (i : Instruction) (r : IsRunnable m) (h : HasRegisters i) where
  add_checked-Keeps : (d a b tested : ℕ) → d < 34 → Keeps ⊥ m (add_checked m d a b tested)
  unfolding add_checked
  add_checked-Keeps d a b tested l =
      elim (Bool-cases (not (signs_differ a b) && signs_differ tested (add32 a b))) [
        | inl e ↦ rw e (trap-Keeps m r)
        | inr e ↦ rw e (put-Keeps m d (add32 a b) l r)
      ]

  sub_checked-Keeps : (d a b : ℕ) → d < 34 → Keeps ⊥ m (sub_checked m d a b)
  unfolding sub_checked
  sub_checked-Keeps d a b l = elim (Bool-cases (signs_differ a b && signs_differ a (sub32 a b))) [
    | inl e ↦ rw e (trap-Keeps m r)
    | inr e ↦ rw e (put-Keeps m d (sub32 a b) l r)
  ]

  divide_unsigned-Keeps : (a b : ℕ) → Keeps ⊥ m (divide_unsigned m a b)
  unfolding divide_unsigned
  divide_unsigned-Keeps a b = elim (Bool-cases (b == 0)) [
    | inl e ↦ rw e (put_hi_lo-Keeps m 0 0 r)
    | inr e ↦ rw e (put_hi_lo-Keeps m (a % b) (a / b) r)
  ]

  divide-Keeps : (a b : ℕ) → Keeps ((a ≡ 2 ^ 31) × (b ≡ 2 ^ 32 - 1)) m (divide m a b)
  unfolding divide
  divide-Keeps a b = elim (Bool-cases (b == 0)) [
    | inl e ↦ rw e (put_hi_lo-Keeps m 0 0 r)
    | inr e ↦ elim (Bool-cases (a == 2 ^ 31 && b == 2 ^ 32 - 1)) [
      | inl f ↦ rw (e, f) (ground arith)
      | inr f ↦ rw (e, f) (put_hi_lo-Keeps m _ _ r)
    ]
  ]

  branch-Keeps : (m' : Machine) (taken : Bool) → Kept m m' → Keeps ⊥ m (branch m m' i taken)
  unfolding branch
  branch-Keeps m' taken k = (k, omega arith)

  link-Kept : (d : ℕ) → d < 34 → Kept m (link m d)
  link-Kept d l = set_reg-Kept m m d _ l (Kept-refl m r)

  -- A case that goes on from what it has read.
  read-Keeps :
      (addr size : ℕ) (f : ℕ → Machine → Outcome Next)
      → is_size size ≡ true
      → ((v : ℕ) (m' : Machine)
          → IsRunnable m'
          → m'.registers ≡ m.registers
          → m'.main_memory ≡ m.main_memory
          → Keeps ⊥ m (f v m'))
      → Keeps ⊥ m (and_then (read_mem m addr size) f)
  read-Keeps addr size f s k = go (read_mem m addr size) (read_mem-Accessed m addr size s r)
    where
      go : (o : Outcome ℕ) → Accessed m o → Keeps ⊥ m (and_then o f)
      go (done v m') (r', regs, memory) = k v m' r' regs memory
      go (trap e a m') same = rw same (trap-Keeps m r)
      go fault none_such = none_such

  later-Keeps :
      (v : ℕ) (m' : Machine)
      → IsRunnable m'
      → m'.registers ≡ m.registers
      → Keeps ⊥ m (load_later i v m')
  later-Keeps v m' r' e = (Kept-same m m' r' e, h.1)

  -- The end of a store, from a machine with the registers and the memory of `m`.
  write-Keeps :
      (n : Machine) (addr size v : ℕ)
      → is_size size ≡ true
      → IsRunnable n
      → n.registers ≡ m.registers
      → n.main_memory ≡ m.main_memory
      → Keeps ⊥ m (and_then (write_mem n addr size v) (λ _ m'. go_on (after m') m'))
  write-Keeps n addr size v s rn regs memory =
      go (write_mem n addr size v) (write_mem-Wrote n addr size v s rn)
    where
      go :
          (o : Outcome (Unit {0}))
          → Wrote n o
          → Keeps ⊥ m (and_then o (λ _ m'. go_on (after m') m'))
      go (done v m') (r', same) = (Kept-same m m' r' (same ∙ regs), omega arith)
      go (trap e a m') same = rw same (rn, regs, memory)
      go fault none_such = none_such

  load_part-Keeps :
      (size : ℕ) (signed : Bool) → is_size size ≡ true → Keeps ⊥ m (load_part m i size signed)
  unfolding load_part
  load_part-Keeps size signed s = elim (Bool-cases (size == 2 && not (address m i % 2 == 0))) [
    | inl e ↦ rw e (trap-Keeps m r)
    | inr e ↦
        rw e (read-Keeps (address m i) size _ s (λ v m' r' regs memory. later-Keeps 0 m' r' regs))
  ]

  load_word-Keeps : Keeps ⊥ m (load_word m i)
  unfolding load_word
  load_word-Keeps = elim (Bool-cases (address m i % 4 == 0)) [
    | inl e ↦
        rw e (read-Keeps (address m i) 4 _ refl (λ v m' r' regs memory. later-Keeps 0 m' r' regs))
    | inr e ↦ rw e (trap-Keeps m r)
  ]

  load_unaligned-Keeps : (merge : ℕ → ℕ → ℕ → ℕ) → Keeps ⊥ m (load_unaligned merge m i)
  unfolding load_unaligned
  load_unaligned-Keeps merge =
      read-Keeps _ 4 _ refl (λ v m' r' regs memory. later-Keeps 0 m' r' regs)

  store-Keeps : (size : ℕ) → is_size size ≡ true → Keeps ⊥ m (store m i size)
  unfolding store
  store-Keeps size s = write-Keeps m (address m i) size _ s r refl refl

  store_unaligned-Keeps : (merge : ℕ → ℕ → ℕ → ℕ) → Keeps ⊥ m (store_unaligned merge m i)
  unfolding store_unaligned
  store_unaligned-Keeps merge =
      read-Keeps _ 4 _ refl (λ v m' r' regs memory. write-Keeps m' _ 4 _ refl r' regs memory)

  put_general : (d v : ℕ) → d < 32 → Keeps ⊥ m (put m d v)
  put_general d v l = put-Keeps m d v (omega arith) r

  div-Undefined :
      (o : Outcome Next)
      → Keeps ((reg m i.rs ≡ 2 ^ 31) × (reg m i.rt ≡ 2 ^ 32 - 1)) m o
      → Keeps (Undefined op_div m i) m o
  div-Undefined (done n m') k = k
  div-Undefined (trap e addr m') k = k
  div-Undefined fault (a, b) = (refl, a, b)

  -- Every case keeps what the machine needs to run.
  pub execute-Keeps : (o : Op) → Keeps (Undefined o m i) m (execute o m i)
  unfolding execute
  execute-Keeps op_add =
      Keeps-weaken (Undefined op_add m i) m _ (add_checked-Keeps i.rd _ _ _ (omega (arith, h.2)))
  execute-Keeps op_addi =
      Keeps-weaken (Undefined op_addi m i) m _ (add_checked-Keeps i.rt _ _ _ (omega (arith, h.1)))
  execute-Keeps op_addiu = put_general i.rt _ h.1
  execute-Keeps op_addu = put_general i.rd _ h.2
  execute-Keeps op_and = put_general i.rd _ h.2
  execute-Keeps op_andi = put_general i.rt _ h.1
  execute-Keeps op_beq = Keeps-weaken (Undefined op_beq m i) m _ (branch-Keeps m _ (Kept-refl m r))
  execute-Keeps op_bgezal =
      Keeps-weaken (Undefined op_bgezal m i) m _
        (branch-Keeps (link m 31) _ (link-Kept 31 (omega arith)))
  execute-Keeps op_bgez =
      Keeps-weaken (Undefined op_bgez m i) m _ (branch-Keeps m _ (Kept-refl m r))
  execute-Keeps op_bgtz =
      Keeps-weaken (Undefined op_bgtz m i) m _ (branch-Keeps m _ (Kept-refl m r))
  execute-Keeps op_blez =
      Keeps-weaken (Undefined op_blez m i) m _ (branch-Keeps m _ (Kept-refl m r))
  execute-Keeps op_bltzal =
      Keeps-weaken (Undefined op_bltzal m i) m _
        (branch-Keeps (link m 31) _ (link-Kept 31 (omega arith)))
  execute-Keeps op_bltz =
      Keeps-weaken (Undefined op_bltz m i) m _ (branch-Keeps m _ (Kept-refl m r))
  execute-Keeps op_bne = Keeps-weaken (Undefined op_bne m i) m _ (branch-Keeps m _ (Kept-refl m r))
  execute-Keeps op_div =
      div-Undefined (divide m (reg m i.rs) (reg m i.rt)) (divide-Keeps (reg m i.rs) (reg m i.rt))
  execute-Keeps op_divu = Keeps-weaken (Undefined op_divu m i) m _ (divide_unsigned-Keeps _ _)
  execute-Keeps op_jal = (link-Kept 31 (omega arith), omega arith)
  execute-Keeps op_j = (Kept-refl m r, omega arith)
  execute-Keeps op_jalr = (link-Kept i.rd (omega (arith, h.2)), omega arith)
  execute-Keeps op_jr = (Kept-refl m r, omega arith)
  execute-Keeps op_lb = Keeps-weaken (Undefined op_lb m i) m _ (load_part-Keeps _ _ refl)
  execute-Keeps op_lbu = Keeps-weaken (Undefined op_lbu m i) m _ (load_part-Keeps _ _ refl)
  execute-Keeps op_lh = Keeps-weaken (Undefined op_lh m i) m _ (load_part-Keeps _ _ refl)
  execute-Keeps op_lhu = Keeps-weaken (Undefined op_lhu m i) m _ (load_part-Keeps _ _ refl)
  execute-Keeps op_lui = put_general i.rt _ h.1
  execute-Keeps op_lw = Keeps-weaken (Undefined op_lw m i) m _ (load_word-Keeps)
  execute-Keeps op_lwl = Keeps-weaken (Undefined op_lwl m i) m _ (load_unaligned-Keeps _)
  execute-Keeps op_lwr = Keeps-weaken (Undefined op_lwr m i) m _ (load_unaligned-Keeps _)
  execute-Keeps op_mfhi = put_general i.rd _ h.2
  execute-Keeps op_mflo = put_general i.rd _ h.2
  execute-Keeps op_mthi = put-Keeps m _ _ (omega arith) r
  execute-Keeps op_mtlo = put-Keeps m _ _ (omega arith) r
  execute-Keeps op_mult = unfold multiply_registers in put_hi_lo-Keeps m _ _ r
  execute-Keeps op_multu = unfold multiply_registers in put_hi_lo-Keeps m _ _ r
  execute-Keeps op_nor = put_general i.rd _ h.2
  execute-Keeps op_or = put_general i.rd _ h.2
  execute-Keeps op_ori = put_general i.rt _ h.1
  execute-Keeps op_sb = Keeps-weaken (Undefined op_sb m i) m _ (store-Keeps _ refl)
  execute-Keeps op_sh = Keeps-weaken (Undefined op_sh m i) m _ (store-Keeps _ refl)
  execute-Keeps op_sll = put_general i.rd _ h.2
  execute-Keeps op_sllv = put_general i.rd _ h.2
  execute-Keeps op_slt = put_general i.rd _ h.2
  execute-Keeps op_slti = put_general i.rt _ h.1
  execute-Keeps op_sltiu = put_general i.rt _ h.1
  execute-Keeps op_sltu = put_general i.rd _ h.2
  execute-Keeps op_sra = put_general i.rd _ h.2
  execute-Keeps op_srav = put_general i.rd _ h.2
  execute-Keeps op_srl = put_general i.rd _ h.2
  execute-Keeps op_srlv = put_general i.rd _ h.2
  execute-Keeps op_sub =
      Keeps-weaken (Undefined op_sub m i) m _ (sub_checked-Keeps i.rd _ _ (omega (arith, h.2)))
  execute-Keeps op_subu = put_general i.rd _ h.2
  execute-Keeps op_sw = Keeps-weaken (Undefined op_sw m i) m _ (store-Keeps _ refl)
  execute-Keeps op_swl = Keeps-weaken (Undefined op_swl m i) m _ (store_unaligned-Keeps _)
  execute-Keeps op_swr = Keeps-weaken (Undefined op_swr m i) m _ (store_unaligned-Keeps _)
  execute-Keeps op_syscall = trap-Keeps m r
  execute-Keeps op_xor = put_general i.rd _ h.2
  execute-Keeps op_xori = put_general i.rt _ h.1
  execute-Keeps op_res = trap-Keeps m r
  execute-Keeps op_unimp = trap-Keeps m r
