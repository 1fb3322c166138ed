-- ===== src/Interrupt/Timer.antt =====
-- machine/timer.cc and threads/alarm.cc: the handler of the hardware timer. RandomNumber is the host's: it
-- takes the state of the generator and gives a number and the new state.
use everything.Base.{
  ℕ, ◌+◌, ◌*◌, ◌%◌, Bool, List, [], ◌∷◌, ◌++◌, if◌then◌else◌, arith, Bool-cases, inl, inr,
}
use everything.Interrupt.{MachineStatus, is_idle, timer_int, Call, to_schedule, to_yield}
use everything.Interrupt.Due.{Ahead}

abbrev pub timer_ticks : ℕ
timer_ticks = 100

pub record Timer : Type 0 where
  pub randomize : Bool
  pub disable : Bool

module _ {D : Type 0} (random_number : D → ℕ × D) where
  -- Timer::SetInterrupt
  pub set_interrupt : Timer → D → D × List (Call Timer)
  set_interrupt timer d =
      let random = random_number d in
      if timer.disable
      then (d, [])
      else if timer.randomize
      then (random.1, to_schedule timer (1 + random.0 % (timer_ticks * 2)) timer_int ∷ [])
      else (d, to_schedule timer timer_ticks timer_int ∷ [])

  -- Timer::CallBack, with `called` for the calls that its callPeriodically makes.
  pub timer_call_back :
      (MachineStatus → List (Call Timer)) → Timer → MachineStatus → D → D × List (Call Timer)
  unfolding set_interrupt
  timer_call_back called timer status d =
      let next = set_interrupt timer d in (next.0, called status ++ next.1)

-- Alarm::CallBack
pub alarm_call_back : MachineStatus → List (Call Timer)
alarm_call_back status = if is_idle status then [] else to_yield ∷ []

module _ {D : Type 0} (random_number : D → ℕ × D) where
  set_interrupt-Ahead : (timer : Timer) (d : D) → Ahead ((set_interrupt random_number timer d).1)
  unfolding set_interrupt
  set_interrupt-Ahead timer d = elim (Bool-cases timer.disable) [
    | inl e ↦ rw e tt
    | inr e ↦ elim (Bool-cases timer.randomize) [
      | inl r ↦ rw (e, r) (omega arith, tt)
      | inr r ↦ rw (e, r) (omega arith, tt)
    ]
  ]

  -- The handler of the timer, with the alarm behind it, schedules nothing for the present moment,
  -- whatever numbers the generator gives.
  pub timer_call_back-Ahead :
      (timer : Timer) (status : MachineStatus) (d : D)
      → Ahead ((timer_call_back random_number alarm_call_back timer status d).1)
  unfolding timer_call_back alarm_call_back
  timer_call_back-Ahead timer status d = elim (Bool-cases (is_idle status)) [
    | inl e ↦ rw e (set_interrupt-Ahead timer d)
    | inr e ↦ rw e (set_interrupt-Ahead timer d)
  ]
