-- ===== src/Machine/Execute/Registers.antt =====
-- What an instruction of machine/mipssim.cc leaves of a machine that can run.
pub mod Access
pub mod Cases
pub mod Cycle
use everything.Base.{
  ℕ, zero, suc, ◌+◌, ◌≤◌, ◌<◌, ◌≡◌, ◌≢◌, refl, sym, ap, ◌∙◌, length, length-set, get_or, set,
  get_or-set_ne, arith, List,
}
use everything.Machine.{Machine, Outcome, done, trap, fault, reg, set_reg, load_reg, memory_size}
use everything.Machine.Translation.{HasOneTable}
use everything.Machine.Execute.{Next, put, put_hi_lo, go_on, pc_reg, next_pc_reg, hi_reg, lo_reg}

-- All registers and bytes are there, a load on its way is for a general register, and there is one
-- page table or TLB.
pub record IsRunnable (m : Machine) : Type 0 where
  pub count : length m.registers ≡ 40
  pub loading : reg m load_reg < 32
  pub one_table : HasOneTable m
  pub memory : length m.main_memory ≡ memory_size

-- What a case of the switch keeps of the machine.
pub record Kept (m m' : Machine) : Type 0 where
  pub runnable : IsRunnable m'
  pub pc : reg m' pc_reg ≡ reg m pc_reg
  pub next_pc : reg m' next_pc_reg ≡ reg m next_pc_reg

pub Kept-refl : (m : Machine) → IsRunnable m → Kept m m
Kept-refl m r = record { runnable = r; pc = refl; next_pc = refl }

pub Kept-same : (m m' : Machine) → IsRunnable m' → m'.registers ≡ m.registers → Kept m m'
Kept-same m m' r e = record {
  runnable = r;
  pc = ap (λ (rs : List ℕ). get_or rs pc_reg 0) e;
  next_pc = ap (λ (rs : List ℕ). get_or rs next_pc_reg 0) e;
}

pub set_reg-Kept : (m m' : Machine) (r v : ℕ) → r < 34 → Kept m m' → Kept m (set_reg m' r v)
set_reg-Kept m m' r v h k = record {
  runnable = record {
    count = length-set m'.registers r v ∙ k.runnable.count;
    loading = rw (get_or-set_ne m'.registers r load_reg v 0 (λ e. omega arith)) k.runnable.loading;
    one_table = k.runnable.one_table;
    memory = k.runnable.memory;
  };
  pc = get_or-set_ne m'.registers r pc_reg v 0 (λ e. omega arith) ∙ k.pc;
  next_pc = get_or-set_ne m'.registers r next_pc_reg v 0 (λ e. omega arith) ∙ k.next_pc;
}

-- What a case of the switch comes to: it goes on, or it traps with the registers and the memory as they
-- were; it stops at most for the reason `why`.
abbrev pub Keeps : Type 0 → Machine → Outcome Next → Type 0
Keeps why m (done next m') = Kept m m' × (next.next_reg < 32)
Keeps why m (trap e addr m') =
    IsRunnable m' × (m'.registers ≡ m.registers) × (m'.main_memory ≡ m.main_memory)
Keeps why m fault = why

pub trap-Keeps :
    (m : Machine)
    → IsRunnable m
    → IsRunnable m × (m.registers ≡ m.registers) × (m.main_memory ≡ m.main_memory)
trap-Keeps m r = (r, refl, refl)

pub put-Keeps : (m : Machine) (r v : ℕ) → r < 34 → IsRunnable m → Keeps ⊥ m (put m r v)
put-Keeps m r v h k = (set_reg-Kept m m r v h (Kept-refl m k), omega arith)

pub put_hi_lo-Keeps : (m : Machine) (hi lo : ℕ) → IsRunnable m → Keeps ⊥ m (put_hi_lo m hi lo)
put_hi_lo-Keeps m hi lo k = (
  set_reg-Kept m (set_reg m lo_reg lo) hi_reg hi (omega arith)
      (set_reg-Kept m m lo_reg lo (omega arith) (Kept-refl m k)),
  omega arith,
)
