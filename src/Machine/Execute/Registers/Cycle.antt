-- ===== src/Machine/Execute/Registers/Cycle.antt =====
-- A whole instruction of machine/mipssim.cc on a machine that can run.
use everything.Base.{
  ℕ, ◌<◌, ◌≡◌, ◌≢◌, refl, ap, ◌∙◌, length, length-set, get_or, get_or-set_ne, get_or-set_self,
  arith, List,
}
use everything.Machine.{
  Machine, Outcome, done, trap, fault, ExceptionType, reg, set_reg, load_reg, load_value_reg,
  bad_vaddr_reg, read_mem, and_then, delayed_load, raise_exception,
}
use everything.Machine.Instruction.{decode, decode-HasRegisters}
use everything.Machine.Execute.{
  Next, execute, finish, Ended, finished, trapped, stopped, ended, one_instruction, pc_reg,
  next_pc_reg, prev_pc_reg,
}
use everything.Machine.Execute.Registers.{IsRunnable, Kept, Keeps}
use everything.Machine.Execute.Registers.Access.{Accessed, read_mem-Accessed}
use everything.Machine.Execute.Registers.Cases.{execute-Keeps, Undefined}

set_reg-IsRunnable :
    (m : Machine) (r v : ℕ) → r ≢ load_reg → IsRunnable m → IsRunnable (set_reg m r v)
set_reg-IsRunnable m r v n k = record {
  count = length-set m.registers r v ∙ k.count;
  loading = rw (get_or-set_ne m.registers r load_reg v 0 n) k.loading;
  one_table = k.one_table;
  memory = k.memory;
}

-- DelayedLoad: register 0 is zero, the counters stay.
record Delayed (m m' : Machine) (next : ℕ) : Type 0 where
  runnable : IsRunnable m'
  null : reg m' 0 ≡ 0
  pc : reg m' pc_reg ≡ reg m pc_reg
  next_pc : reg m' next_pc_reg ≡ reg m next_pc_reg
  loading : reg m' load_reg ≡ next
  same_memory : m'.main_memory ≡ m.main_memory

delayed_load-Delayed :
    (m : Machine) (next v : ℕ) → IsRunnable m → next < 32 → Delayed m (delayed_load m next v) next
delayed_load-Delayed m next v k l =
    let l₀ = reg m load_reg in
    let m₁ = set_reg m l₀ (reg m load_value_reg) in
    let m₂ = set_reg m₁ load_reg next in
    let m₃ = set_reg m₂ load_value_reg v in
    let c₁ : length m₁.registers ≡ 40 =
      length-set m.registers l₀ (reg m load_value_reg) ∙ k.count in
    let c₂ : length m₂.registers ≡ 40 = length-set m₁.registers load_reg next ∙ c₁ in
    let c₃ : length m₃.registers ≡ 40 = length-set m₂.registers load_value_reg v ∙ c₂ in
    let at : reg (set_reg m₃ 0 0) load_reg ≡ next =
      get_or-set_ne m₃.registers 0 load_reg 0 0 (λ e. omega arith)
      ∙ get_or-set_ne m₂.registers load_value_reg load_reg v 0 (λ e. omega arith)
      ∙ get_or-set_self m₁.registers load_reg next 0 (omega (arith, c₁)) in
    unfold delayed_load in
    record {
      runnable = record {
        count = length-set m₃.registers 0 0 ∙ c₃;
        loading = rw at l;
        one_table = k.one_table;
        memory = k.memory;
      };
      null = get_or-set_self m₃.registers 0 0 0 (omega (arith, c₃));
      pc =
          other m₁ pc_reg (λ e. omega arith) (λ e. omega arith) (λ e. omega arith)
          ∙ get_or-set_ne m.registers l₀ pc_reg (reg m load_value_reg) 0
              (λ e. omega (arith, k.loading));
      next_pc =
          other m₁ next_pc_reg (λ e. omega arith) (λ e. omega arith) (λ e. omega arith)
          ∙ get_or-set_ne m.registers l₀ next_pc_reg (reg m load_value_reg) 0
              (λ e. omega (arith, k.loading));
      loading = at;
      same_memory = refl;
    }
  where
    other :
        (n : Machine) (r : ℕ)
        → load_reg ≢ r
        → load_value_reg ≢ r
        → 0 ≢ r
        → reg (set_reg (set_reg (set_reg n load_reg next) load_value_reg v) 0 0) r ≡ reg n r
    other n r a b c =
        get_or-set_ne _ 0 r 0 0 c
        ∙ get_or-set_ne _ load_value_reg r v 0 b
        ∙ get_or-set_ne n.registers load_reg r next 0 a

-- How an instruction may end. It stops only at the division that C++ leaves undefined.
abbrev pub Ends : Machine → Ended → Type 0
Ends m (finished m') =
    IsRunnable m'
    × (reg m' 0 ≡ 0)
    × (reg m' prev_pc_reg ≡ reg m pc_reg)
    × (reg m' pc_reg ≡ reg m next_pc_reg)
Ends m (trapped e m') =
    IsRunnable m'
    × (reg m' 0 ≡ 0)
    × (reg m' pc_reg ≡ reg m pc_reg)
    × (reg m' next_pc_reg ≡ reg m next_pc_reg)
    × (reg m' load_reg ≡ 0)
    × (m'.main_memory ≡ m.main_memory)
Ends m stopped =
    (raw : ℕ) × (m' : Machine) × (read_mem m (reg m pc_reg) 4 ≡ done raw m')
    × Undefined (decode raw).op_code m' (decode raw)

finish-Ends :
    (m m' : Machine) (next : Next)
    → Kept m m'
    → next.next_reg < 32
    → Ends m (finished (finish next m'))
unfolding finish
finish-Ends m m' next k l =
    let d = delayed_load-Delayed m' next.next_reg next.next_value k.runnable l in
    let m₁ = delayed_load m' next.next_reg next.next_value in
    let m₂ = set_reg m₁ prev_pc_reg (reg m₁ pc_reg) in
    let m₃ = set_reg m₂ pc_reg (reg m₂ next_pc_reg) in
    let r₂ : IsRunnable m₂ =
      set_reg-IsRunnable m₁ prev_pc_reg (reg m₁ pc_reg) (λ e. omega arith) d.runnable in
    let r₃ : IsRunnable m₃ =
      set_reg-IsRunnable m₂ pc_reg (reg m₂ next_pc_reg) (λ e. omega arith) r₂ in
    (
      set_reg-IsRunnable m₃ next_pc_reg next.pc_after (λ e. omega arith) r₃,
      get_or-set_ne m₃.registers next_pc_reg 0 next.pc_after 0 (λ e. omega arith)
          ∙ get_or-set_ne m₂.registers pc_reg 0 (reg m₂ next_pc_reg) 0 (λ e. omega arith)
          ∙ get_or-set_ne m₁.registers prev_pc_reg 0 (reg m₁ pc_reg) 0 (λ e. omega arith)
          ∙ d.null,
      get_or-set_ne m₃.registers next_pc_reg prev_pc_reg next.pc_after 0 (λ e. omega arith)
          ∙ get_or-set_ne m₂.registers pc_reg prev_pc_reg (reg m₂ next_pc_reg) 0 (λ e. omega arith)
          ∙ get_or-set_self m₁.registers prev_pc_reg (reg m₁ pc_reg) 0
              (omega (arith, d.runnable.count))
          ∙ d.pc
          ∙ k.pc,
      get_or-set_ne m₃.registers next_pc_reg pc_reg next.pc_after 0 (λ e. omega arith)
          ∙ get_or-set_self m₂.registers pc_reg (reg m₂ next_pc_reg) 0 (omega (arith, r₂.count))
          ∙ get_or-set_ne m₁.registers prev_pc_reg next_pc_reg (reg m₁ pc_reg) 0 (λ e. omega arith)
          ∙ d.next_pc
          ∙ k.next_pc,
    )

raise-Ends :
    (m m' : Machine) (e : ExceptionType) (addr : ℕ)
    → IsRunnable m'
    → m'.registers ≡ m.registers
    → m'.main_memory ≡ m.main_memory
    → Ends m (trapped e (raise_exception m' addr))
unfolding raise_exception
raise-Ends m m' e addr r regs memory =
    let n = set_reg m' bad_vaddr_reg addr in
    let d =
      delayed_load-Delayed n 0 0 (set_reg-IsRunnable m' bad_vaddr_reg addr (λ e. omega arith) r)
        (omega arith) in
    (
      d.runnable,
      d.null,
      d.pc
          ∙ get_or-set_ne m'.registers bad_vaddr_reg pc_reg addr 0 (λ e. omega arith)
          ∙ ap (λ (rs : List ℕ). get_or rs pc_reg 0) regs,
      d.next_pc
          ∙ get_or-set_ne m'.registers bad_vaddr_reg next_pc_reg addr 0 (λ e. omega arith)
          ∙ ap (λ (rs : List ℕ). get_or rs next_pc_reg 0) regs,
      d.loading,
      d.same_memory ∙ memory,
    )

-- An instruction on a machine with all its registers and bytes, a pending load for a general
-- register, and exactly one of page table and TLB, ends in one of three ways. It finishes: the
-- machine is again such a machine, register 0 is zero, PrevPCReg holds the old PCReg and PCReg the
-- old NextPCReg. It traps: the machine is such a machine, register 0 is zero, PCReg, NextPCReg and
-- the memory are as before, and no load is pending. Or it stops, only if it is a DIV of the least
-- int by -1: no other instruction fails an ASSERT or reads a byte out of range.
pub one_instruction-Ends : (m : Machine) → IsRunnable m → Ends m (one_instruction m)
unfolding one_instruction ended
one_instruction-Ends m r =
    fetched (read_mem m (reg m pc_reg) 4) refl (read_mem-Accessed m (reg m pc_reg) 4 refl r)
  where
    executed :
        (raw : ℕ) (m' : Machine)
        → read_mem m (reg m pc_reg) 4 ≡ done raw m'
        → m'.registers ≡ m.registers
        → m'.main_memory ≡ m.main_memory
        → (o : Outcome Next) → Keeps (Undefined (decode raw).op_code m' (decode raw)) m' o
        → Ends m (ended o)
    executed raw m' e regs memory (done next m'') (k, l) =
        let (run, null, prev, pc) = finish-Ends m' m'' next k l in
        (
          run,
          null,
          prev ∙ ap (λ (rs : List ℕ). get_or rs pc_reg 0) regs,
          pc ∙ ap (λ (rs : List ℕ). get_or rs next_pc_reg 0) regs,
        )
    executed raw m' e regs memory (trap x addr m'') (r', regs', memory') =
        raise-Ends m m'' x addr r' (regs' ∙ regs) (memory' ∙ memory)
    executed raw m' e regs memory fault why = (raw, m', e, why)

    fetched :
        (o : Outcome ℕ)
        → read_mem m (reg m pc_reg) 4 ≡ o
        → Accessed m o
        → Ends m (ended (and_then o (λ raw m'. execute (decode raw).op_code m' (decode raw))))
    fetched (done raw m') e (r', regs, memory) =
        executed raw m' e regs memory (execute (decode raw).op_code m' (decode raw))
          (execute-Keeps m' (decode raw) r' (decode-HasRegisters raw) (decode raw).op_code)
    fetched (trap x addr m') e same =
        raise-Ends m m' x addr (rw same r) (ap (λ (n : Machine). n.registers) same)
          (ap (λ (n : Machine). n.main_memory) same)
    fetched fault e none_such = absurd none_such
