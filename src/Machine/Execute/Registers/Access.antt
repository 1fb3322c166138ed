-- ===== src/Machine/Execute/Registers/Access.antt =====
-- ReadMem and WriteMem on a machine that can run.
use everything.Base.{
  ℕ, zero, suc, ◌+◌, ◌*◌, ◌≤◌, ◌≡◌, refl, ◌∙◌, length, get_or, get_elem?-eq-get_or, List, some,
  true, false, arith,
}
use everything.Machine.{
  Machine, Outcome, done, trap, fault, memory_size, read_mem, write_mem, read_at, write_at,
  load_bytes, store_bytes, is_size, Translated, mapped, raised, broken, translate, loaded,
}
use everything.Machine.Translation.{translate-safe, translate-Mapped}
use everything.Machine.Memory.{length-store_bytes}
use everything.Machine.Execute.Registers.{IsRunnable}

load_bytes-some :
    (n at : ℕ) (memory : List ℕ)
    → at + n ≤ length memory
    → (v : ℕ) × (load_bytes n at memory ≡ some v)
unfolding load_bytes
load_bytes-some zero at memory h = (0, refl)
load_bytes-some (suc n) at memory h =
    let rest = load_bytes-some n (at + 1) memory (omega arith) in
    (get_or memory at 0 + 256 * rest.0, rw (get_elem?-eq-get_or memory at 0 (omega arith), rest.1))

read_at-done :
    (m m' : Machine) (addr size pa v : ℕ)
    → is_size size ≡ true
    → load_bytes size pa m'.main_memory ≡ some v
    → read_at m addr size (mapped pa m') ≡ done (loaded size v) m'
unfolding read_at
read_at-done m m' addr size pa v s l = ground arith

write_at-done :
    (m m' : Machine) (addr size pa v : ℕ)
    → is_size size ≡ true
    → write_at m addr size v (mapped pa m')
      ≡ done tt (record m' { main_memory = store_bytes size pa v m'.main_memory })
unfolding write_at
write_at-done m m' addr size pa v s = rw s

abbrev pub Accessed : Machine → Outcome ℕ → Type 0
Accessed m (done v m') =
    IsRunnable m' × (m'.registers ≡ m.registers) × (m'.main_memory ≡ m.main_memory)
Accessed m (trap e addr m') = m' ≡ m
Accessed m fault = ⊥

pub read_mem-Accessed :
    (m : Machine) (addr size : ℕ)
    → is_size size ≡ true
    → IsRunnable m
    → Accessed m (read_mem m addr size)
unfolding read_mem read_at
read_mem-Accessed m addr size s r = go (translate m addr size false) refl
  where
    go : (t : Translated) → translate m addr size false ≡ t → Accessed m (read_at m addr size t)
    go (raised x) e = refl
    go broken e = absurd (translate-safe m addr size false r.one_table s e)
    go (mapped pa m') e =
        let mp = translate-Mapped m m' addr size pa false r.one_table e in
        let full : length m'.main_memory ≡ memory_size = rw mp.same_memory r.memory in
        let (v, l) = load_bytes-some size pa m'.main_memory (omega (arith, mp.inside)) in
        rw (read_at-done m m' addr size pa v s l) (
          record {
            count = rw mp.same_registers r.count;
            loading = rw mp.same_registers r.loading;
            one_table = mp.one_table;
            memory = full;
          },
          mp.same_registers,
          mp.same_memory,
        )

abbrev pub Wrote : Machine → Outcome (Unit {0}) → Type 0
Wrote m (done v m') = IsRunnable m' × (m'.registers ≡ m.registers)
Wrote m (trap e addr m') = m' ≡ m
Wrote m fault = ⊥

pub write_mem-Wrote :
    (m : Machine) (addr size v : ℕ)
    → is_size size ≡ true
    → IsRunnable m
    → Wrote m (write_mem m addr size v)
unfolding write_mem write_at
write_mem-Wrote m addr size v s r = go (translate m addr size true) refl
  where
    go : (t : Translated) → translate m addr size true ≡ t → Wrote m (write_at m addr size v t)
    go (raised x) e = refl
    go broken e = absurd (translate-safe m addr size true r.one_table s e)
    go (mapped pa m') e =
        let mp = translate-Mapped m m' addr size pa true r.one_table e in
        rw (write_at-done m m' addr size pa v s) (
          record {
            count = rw mp.same_registers r.count;
            loading = rw mp.same_registers r.loading;
            one_table = mp.one_table;
            memory = length-store_bytes size pa v m'.main_memory ∙ rw mp.same_memory r.memory;
          },
          mp.same_registers,
        )
