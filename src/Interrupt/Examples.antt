-- ===== src/Interrupt/Examples.antt =====
-- CheckIfDue with two timers pending.
use everything.Base.{ℕ, suc, ◌≡◌, refl, ◌⊎◌, true, false, none, some, List, [], ◌∷◌, arith}
use everything.Interrupt.{
  Kernel, int_off, timer_int, system_mode, MachineStatus, Call, check_if_due, idle,
}
use everything.Interrupt.Due.{Sorted}
use everything.Interrupt.Handlers.{Quiet, RunsAt, Ran, check_if_due-Ran}
use everything.Interrupt.Idle.{Woken, idle-Woken}
use everything.Interrupt.Timer.{Timer, timer_call_back, alarm_call_back, timer_call_back-Ahead}

-- A generator that gives its state and counts.
abbrev counting : ℕ → ℕ × ℕ
counting d = (d, suc d)

abbrev handler : Timer → MachineStatus → ℕ → ℕ × List (Call Timer)
handler = timer_call_back counting alarm_call_back

abbrev steady : Timer
steady = record { randomize = false; disable = false }

abbrev ragged : Timer
ragged = record { randomize = true; disable = false }

abbrev two_pending : Kernel Timer ℕ
two_pending = record {
  level = int_off;
  in_handler = false;
  yield_on_return = false;
  status = system_mode;
  pending =
      record { call_on_interrupt = steady; at = 40; type = timer_int }
      ∷ record { call_on_interrupt = ragged; at = 70; type = timer_int }
      ∷ [];
  total_ticks = 60;
  idle_ticks = 0;
  system_ticks = 60;
  user_ticks = 0;
  machine = none;
  devices = 7;
}

two_pending-Sorted : Sorted two_pending.pending
two_pending-Sorted = ((omega arith, tt), (tt, tt))

check_if_due-Ran_example :
    Quiet false two_pending (check_if_due handler false two_pending)
    ⊎ ((now : ℕ) × RunsAt false two_pending now
        × Ran handler
            (timer_call_back-Ahead counting)
            two_pending
            now
            (check_if_due handler false two_pending))
check_if_due-Ran_example =
    check_if_due-Ran handler (timer_call_back-Ahead counting) false two_pending refl
      two_pending-Sorted

idle-Woken_example :
    ((idle handler two_pending ≡ some none) × (two_pending.pending ≡ []))
    ⊎ ((now : ℕ) × Woken handler
          (timer_call_back-Ahead counting)
          two_pending
          now
          (idle handler two_pending))
idle-Woken_example =
    idle-Woken handler (timer_call_back-Ahead counting) two_pending refl two_pending-Sorted
