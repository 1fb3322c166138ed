-- ===== src/Interrupt/Idle.antt =====
-- Interrupt::Idle.
use everything.Base.{ℕ, ◌≡◌, ◌<◌, refl, ◌⊎◌, inl, inr, true, false, Option, none, some, List, []}
use everything.Interrupt.{
  PendingInterrupt, Kernel, Call, MachineStatus, idle_mode, system_mode, idle, is_on,
}
use everything.Interrupt.Due.{Sorted, due, Ahead, In}
use everything.Interrupt.Handlers.{handle, Quiet, RunsAt, check_if_due-Ran}

module _ {A D : Type 0} (call_back : A → MachineStatus → D → D × List (Call A))
    (ahead : (a : A) (st : MachineStatus) (d : D) → Ahead ((call_back a st d).1)) where
  -- The machine is woken at time `now`: the handlers of all interrupts that were due then were called in
  -- idle mode.
  pub record Woken (k : Kernel A D) (now : ℕ) (result : Option (Option (Kernel A D))) : Type 0 where
    pub out : Kernel A D
    pub returns : result ≡ some (some out)
    pub runs_at : RunsAt true k now
    pub clock : out.total_ticks ≡ now
    pub sorted : Sorted out.pending
    pub none_due : due now out.pending ≡ []
    pub handled : out.devices ≡ handle call_back ahead idle_mode (due now k.pending) k.devices
    pub kept : (p : PendingInterrupt A) → In p k.pending → now < p.at → In p out.pending
    pub status : out.status ≡ system_mode

  -- With the pending interrupts in order of time, interrupts off, and handlers that schedule
  -- nothing for the present moment, Idle halts only if nothing is pending; otherwise it returns in
  -- system mode with the clock at the present time, if an interrupt is due already, and else at the
  -- time of the first interrupt, and the handlers of all that were due then called in idle mode;
  -- none of those pending is due, and no interrupt that was not due is lost.
  pub idle-Woken :
      (k : Kernel A D)
      → is_on k.level ≡ false
      → Sorted k.pending
      → ((idle call_back k ≡ some none) × (k.pending ≡ []))
        ⊎ ((now : ℕ) × Woken k now (idle call_back k))
  unfolding idle Quiet RunsAt
  idle-Woken k off s =
      elim (check_if_due-Ran call_back ahead true (record k { status = idle_mode }) off s) [
        | inl (e, nothing, why) ↦
            inl (rw e refl, elim why [ inl never ↦ absurd cc | inr empty ↦ empty ])
        | inr (now, at, r) ↦ inr (
          now,
          record {
            out = record r.out { status = system_mode };
            returns = rw r.returns refl;
            runs_at = at;
            clock = r.clock;
            sorted = r.sorted;
            none_due = r.none_due;
            handled = r.handled;
            kept = r.kept;
            status = refl;
          },
        )
      ]
