-- ===== src/Interrupt.antt =====
-- machine/interrupt.cc: pending interrupts, simulated time and the interrupt level; with
-- SortedList::Insert of lib/list.cc. An interrupt's object and the state of the devices are any types:
-- a CallBack is a parameter, which gives the devices' new state and the calls of Schedule and
-- YieldOnReturn that it makes, in order. `none` is a failed ASSERT.
pub mod Due
pub mod Handlers
pub mod Idle
pub mod Timer
mod Examples
use everything.Base.{
  ℕ, zero, suc, ◌+◌, ◌-◌, Bool, true, false, not, Option, none, some, List, [], ◌∷◌, length, ltb,
  leb, if◌then◌else◌, assert, ◌>>=◌, ◌>>◌, ◌&&◌, ◌||◌,
}
use everything.Machine.{Machine, delayed_load}

pub data IntStatus : Type 0 where
  int_off int_on : IntStatus

pub data MachineStatus : Type 0 where
  idle_mode system_mode user_mode : MachineStatus

pub data IntType : Type 0 where
  timer_int disk_int console_write_int console_read_int network_send_int network_recv_int : IntType

abbrev pub is_on : IntStatus → Bool
is_on int_off = false
is_on int_on = true

abbrev pub is_idle : MachineStatus → Bool
is_idle idle_mode = true
is_idle system_mode = false
is_idle user_mode = false

abbrev pub is_system : MachineStatus → Bool
is_system idle_mode = false
is_system system_mode = true
is_system user_mode = false

abbrev pub user_tick : ℕ
user_tick = 1

abbrev pub system_tick : ℕ
system_tick = 10

pub record PendingInterrupt (A : Type 0) : Type 0 where
  pub call_on_interrupt : A
  pub at : ℕ
  pub type : IntType

-- Interrupt, with the ticks of Statistics, the machine (`none` is NULL) and the devices.
pub record Kernel (A D : Type 0) : Type 0 where
  pub level : IntStatus
  pub pending : List (PendingInterrupt A)
  pub in_handler : Bool
  pub yield_on_return : Bool
  pub status : MachineStatus
  pub total_ticks : ℕ
  pub idle_ticks : ℕ
  pub system_ticks : ℕ
  pub user_ticks : ℕ
  pub machine : Option Machine
  pub devices : D

-- A call that a handler makes.
pub data Call (A : Type 0) : Type 0 where
  to_schedule : (to_call : A) (from_now : ℕ) (type : IntType) → Call A
  to_yield : Call A

module _ {A : Type 0} where
  -- SortedList::Insert with PendingCompare. The new element is not in the list, and its place at the
  -- front is found by the comparison that finds every other place.
  pub insert : PendingInterrupt A → List (PendingInterrupt A) → List (PendingInterrupt A)
  insert item [] = item ∷ []
  insert item (x ∷ xs) =
      let behind = x ∷ insert item xs in if ltb item.at x.at then item ∷ x ∷ xs else behind

  -- The first interrupt of a list is due.
  pub first_due : ℕ → List (PendingInterrupt A) → Bool
  first_due now [] = false
  first_due now (next ∷ rest) = leb next.at now

module _ {A D : Type 0} where
  -- Interrupt::Schedule
  pub schedule : A → ℕ → IntType → Kernel A D → Option (Kernel A D)
  unfolding insert
  schedule to_call from_now type k = do
    assert (ltb 0 from_now)
    let to_occur : PendingInterrupt A = record {
      call_on_interrupt = to_call;
      at = k.total_ticks + from_now;
      type = type;
    }
    some (record k { pending = insert to_occur k.pending })

  -- Interrupt::YieldOnReturn
  pub yield_on_return_call : Kernel A D → Option (Kernel A D)
  yield_on_return_call k = do assert k.in_handler; some (record k { yield_on_return = true })

  -- The calls of a handler.
  pub make_calls : List (Call A) → Kernel A D → Option (Kernel A D)
  unfolding schedule yield_on_return_call
  make_calls [] k = some k
  make_calls (to_schedule to_call from_now type ∷ calls) k = do
    k' ← schedule to_call from_now type k
    make_calls calls k'
  make_calls (to_yield ∷ calls) k = do k' ← yield_on_return_call k; make_calls calls k'

  -- !pending->IsEmpty() && pending->Front()->when <= stats->totalTicks
  pub is_due : Kernel A D → Bool
  unfolding first_due
  is_due k = first_due k.total_ticks k.pending

module _ {A D : Type 0} (call_back : A → MachineStatus → D → D × List (Call A)) where
  -- One round of the loop: the first interrupt is taken off the list and its handler called.
  pub fire : Kernel A D → Option (Kernel A D)
  unfolding make_calls
  fire k = elim k.pending [
    | [] ↦ none
    | next ∷ rest ↦
        let called = call_back next.call_on_interrupt k.status k.devices in
        make_calls (called.1) (record k { pending = rest; devices = called.0 })
  ]

  -- The do-while loop, on fuel; the result is whether it came to its end.
  pub fire_all : ℕ → Kernel A D → Option (Bool × Kernel A D)
  unfolding fire is_due
  fire_all zero k = some (false, k)
  fire_all (suc fuel) k = do
    k' ← fire k
    let more = fire_all fuel k'
    if is_due k' then more else some (true, k')

  -- The delayed load of the machine, if there is one, and inHandler = TRUE.
  pub enter : Kernel A D → Kernel A D
  enter k =
      let machine' : Option Machine = elim k.machine [
        | none ↦ none
        | some m ↦ some (delayed_load m 0 0)
      ] in
      record k { machine = machine'; in_handler = true }

  -- What CheckIfDue does once the clock stands at an interrupt. Each round takes one interrupt, and a
  -- handler adds none that is due, so the interrupts of the list are rounds enough.
  pub run_handlers : Kernel A D → Option (Bool × Kernel A D)
  unfolding fire_all enter
  run_handlers k = do
    (ended, k') ← fire_all (length k.pending) (enter k)
    assert ended
    some (true, record k' { in_handler = false })

  -- CheckIfDue on its list of pending interrupts.
  pub check_front : List (PendingInterrupt A) → Bool → Kernel A D → Option (Bool × Kernel A D)
  unfolding run_handlers
  check_front [] advance_clock k = some (false, k)
  check_front (next ∷ rest) advance_clock k =
      let idle : ℕ = k.idle_ticks + (next.at - k.total_ticks) in
      let waited = run_handlers (record k { idle_ticks = idle; total_ticks = next.at }) in
      let now = run_handlers k in
      if ltb k.total_ticks next.at then (if advance_clock then waited else some (false, k)) else now

  -- Interrupt::CheckIfDue
  pub check_if_due : Bool → Kernel A D → Option (Bool × Kernel A D)
  unfolding check_front
  check_if_due advance_clock k = do
    assert (not (is_on k.level))
    check_front k.pending advance_clock k

  -- Interrupt::OneTick; `yield` is Thread::Yield of the current thread.
  pub one_tick : (Kernel A D → Option (Kernel A D)) → Kernel A D → Option (Kernel A D)
  unfolding check_if_due
  one_tick yield k =
      let ticked =
        if is_system k.status
        then record k {
          total_ticks = k.total_ticks + system_tick;
          system_ticks = k.system_ticks + system_tick;
        }
        else record k {
          total_ticks = k.total_ticks + user_tick;
          user_ticks = k.user_ticks + user_tick;
        } in
      do
        (fired, k') ← check_if_due false (record ticked { level = int_off })
        let k'' = record k' { level = int_on }
        let yielded = (do
          after ← yield (record k'' { yield_on_return = false; status = system_mode })
          some (record after { status = k.status }))
        if k''.yield_on_return then yielded else some k''

  -- Interrupt::SetLevel
  pub set_level :
      (Kernel A D → Option (Kernel A D)) → IntStatus → Kernel A D → Option (IntStatus × Kernel A D)
  unfolding one_tick
  set_level yield now k =
      let changed = record k { level = now } in
      do
        assert (not (is_on now) || not k.in_handler)
        let ticked = one_tick yield changed
        k' ← if is_on now && not (is_on k.level) then ticked else some changed
        some (k.level, k')

  -- Interrupt::Idle; `none` inside is Halt.
  pub idle : Kernel A D → Option (Option (Kernel A D))
  unfolding check_if_due
  idle k = do
    (fired, k') ← check_if_due true (record k { status = idle_mode })
    if fired then some (some (record k' { status = system_mode })) else some none
