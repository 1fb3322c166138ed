-- ===== src/Interrupt/Handlers.antt =====
-- CheckIfDue: its loop ends, and it calls the handlers of the interrupts that are due, in order of time.
use everything.Base.{
  ℕ, zero, suc, ◌+◌, ◌-◌, ◌≤◌, ◌<◌, ◌≡◌, refl, sym, ap, ◌∙◌, ◌⊎◌, inl, inr, Bool, true, false,
  Option, some, List, [], ◌∷◌, arith, length, ltb, leb, Bool-cases, subst,
}
use everything.Interrupt.{
  PendingInterrupt, Kernel, Call, to_schedule, to_yield, MachineStatus, insert, first_due,
  make_calls, is_due, fire, fire_all, run_handlers, check_if_due, check_front, enter, schedule,
  yield_on_return_call, is_on,
}
use everything.Interrupt.Due.{
  Sorted, due, Ahead, In, insert-Sorted, due-insert, due-late, length-due, In-insert,
  first_due-split, first_due-none,
}

module _ {A D : Type 0} where
  -- What a handler's calls do to the kernel.
  record Called (k : Kernel A D) (result : Option (Kernel A D)) : Type 0 where
    out : Kernel A D
    returns : result ≡ some out
    sorted : Sorted out.pending
    same_due : due k.total_ticks out.pending ≡ due k.total_ticks k.pending
    kept : (p : PendingInterrupt A) → In p k.pending → In p out.pending
    same_devices : out.devices ≡ k.devices
    same_ticks : out.total_ticks ≡ k.total_ticks
    same_status : out.status ≡ k.status
    same_level : out.level ≡ k.level
    in_handler : out.in_handler ≡ true

  yields :
      (k : Kernel A D)
      → k.in_handler ≡ true
      → yield_on_return_call k ≡ some (record k { yield_on_return = true })
  unfolding yield_on_return_call
  yields k h = rw h refl

  make_calls-Called :
      (calls : List (Call A)) (k : Kernel A D)
      → Ahead calls
      → k.in_handler ≡ true
      → Sorted k.pending
      → Called k (make_calls calls k)
  unfolding make_calls schedule
  make_calls-Called [] k a h s = record {
    out = k;
    returns = refl;
    sorted = s;
    same_due = refl;
    kept = λ p m. m;
    same_devices = refl;
    same_ticks = refl;
    same_status = refl;
    same_level = refl;
    in_handler = h;
  }
  make_calls-Called (to_schedule to_call from_now type ∷ calls) k (pos, a) h s =
      let x : PendingInterrupt A = record {
        call_on_interrupt = to_call;
        at = k.total_ticks + from_now;
        type = type;
      } in
      let ahead : ltb 0 from_now ≡ true = ground arith in
      let c =
        make_calls-Called calls (record k { pending = insert x k.pending }) a h
          (insert-Sorted x k.pending s) in
      record {
        out = c.out;
        returns = rw ahead c.returns;
        sorted = c.sorted;
        same_due = c.same_due ∙ due-insert k.total_ticks x k.pending (omega arith);
        kept = λ p m. c.kept p (In-insert p x k.pending m);
        same_devices = c.same_devices;
        same_ticks = c.same_ticks;
        same_status = c.same_status;
        same_level = c.same_level;
        in_handler = c.in_handler;
      }
  make_calls-Called (to_yield ∷ calls) k a h s =
      let c = make_calls-Called calls (record k { yield_on_return = true }) a h s in
      record {
        out = c.out;
        returns = rw (yields k h) c.returns;
        sorted = c.sorted;
        same_due = c.same_due;
        kept = c.kept;
        same_devices = c.same_devices;
        same_ticks = c.same_ticks;
        same_status = c.same_status;
        same_level = c.same_level;
        in_handler = c.in_handler;
      }

  -- Nothing is due, and the clock may not advance or nothing is pending.
  unfoldable pub Quiet : Bool → Kernel A D → Option (Bool × Kernel A D) → Type 0
  Quiet advance_clock k result =
      (result ≡ some (false, k))
      × (due k.total_ticks k.pending ≡ [])
      × ((advance_clock ≡ false) ⊎ (k.pending ≡ []))

  -- The time at which the handlers run: now, if an interrupt is due, and else that of the first.
  unfoldable pub RunsAt : Bool → Kernel A D → ℕ → Type 0
  RunsAt advance_clock k now =
      ((now ≡ k.total_ticks) × (first_due now k.pending ≡ true))
      ⊎ ((advance_clock ≡ true)
          × (due k.total_ticks k.pending ≡ [])
          × ((next : PendingInterrupt A) × (rest : List (PendingInterrupt A)) × (k.pending
                ≡ next ∷ rest)
              × (now ≡ next.at)))

module _ {A D : Type 0} (call_back : A → MachineStatus → D → D × List (Call A))
    (ahead : (a : A) (st : MachineStatus) (d : D) → Ahead ((call_back a st d).1)) where
  -- The handlers of a list of interrupts, called in its order.
  pub handle : MachineStatus → List (PendingInterrupt A) → D → D
  handle st [] d = d
  handle st (x ∷ xs) d = handle st xs ((call_back x.call_on_interrupt st d).0)

  -- From `k` on, the handlers of what was due at the kernel's time were called in order; what is pending
  -- is in order, none of it is due, and no interrupt that was not due is lost.
  pub record Fired (k : Kernel A D) (result : Option (Bool × Kernel A D)) : Type 0 where
    pub out : Kernel A D
    pub returns : result ≡ some (true, out)
    pub sorted : Sorted out.pending
    pub none_due : due k.total_ticks out.pending ≡ []
    pub handled : out.devices ≡ handle k.status (due k.total_ticks k.pending) k.devices
    pub kept : (p : PendingInterrupt A) → In p k.pending → k.total_ticks < p.at → In p out.pending
    pub same_ticks : out.total_ticks ≡ k.total_ticks
    pub same_status : out.status ≡ k.status
    pub same_level : out.level ≡ k.level

  abbrev taken : Kernel A D → PendingInterrupt A → List (PendingInterrupt A) → Kernel A D
  taken k next rest = record k {
    pending = rest;
    devices = (call_back next.call_on_interrupt k.status k.devices).0;
  }

  module _ (k : Kernel A D) (next : PendingInterrupt A) (rest : List (PendingInterrupt A))
      (split : k.pending ≡ next ∷ rest) (at_front : leb next.at k.total_ticks ≡ true)
      (h : k.in_handler ≡ true) (s : Sorted k.pending) where
    rest-Sorted : Sorted rest
    rest-Sorted = (subst Sorted split s).1

    fire-Called : Called (taken k next rest) (fire call_back k)
    unfolding fire
    fire-Called = rw split (
        make_calls-Called ((call_back next.call_on_interrupt k.status k.devices).1)
          (taken k next rest) (ahead next.call_on_interrupt k.status k.devices) h rest-Sorted)

    due-split : due k.total_ticks k.pending ≡ next ∷ due k.total_ticks rest
    due-split = rw (split, at_front) refl

    still : (p : PendingInterrupt A) → In p k.pending → k.total_ticks < p.at → In p rest
    still p m late = elim (subst (In p) split m) [
      | inl e ↦ absurd (early p e late)
      | inr there ↦ there
    ]
      where
        early : (p : PendingInterrupt A) → next ≡ p → k.total_ticks < p.at → ⊥
        early p e late = ground (arith, ap (λ (t : PendingInterrupt A). t.at) e)

  fire_all-Fired :
      (fuel : ℕ) (k : Kernel A D)
      → is_due k ≡ true
      → k.in_handler ≡ true
      → Sorted k.pending
      → length (due k.total_ticks k.pending) ≤ fuel
      → Fired k (fire_all call_back fuel k)
  unfolding fire_all is_due handle
  fire_all-Fired zero k e h s enough =
      let (next, rest, split, front) = first_due-split k.total_ticks k.pending e in
      absurd (omega (arith, ap length (due-split k next rest split front h s)))
  fire_all-Fired (suc fuel) k e h s enough =
      let (next, rest, split, front) = first_due-split k.total_ticks k.pending e in
      let c = fire-Called k next rest split front h s in
      let all = due-split k next rest split front h s in
      elim (Bool-cases (is_due c.out)) [
        | inr stop ↦ ended next rest all (still k next rest split front h s) c stop
        | inl more ↦ further next rest all (still k next rest split front h s) c more (
            fire_all-Fired fuel c.out more c.in_handler c.sorted
              (rw (c.same_ticks, c.same_due) (omega (arith, ap length all))))
      ]
    where
      ended :
          (next : PendingInterrupt A) (rest : List (PendingInterrupt A))
          → due k.total_ticks k.pending ≡ next ∷ due k.total_ticks rest
          → ((p : PendingInterrupt A) → In p k.pending → k.total_ticks < p.at → In p rest)
          → (c : Called (taken k next rest) (fire call_back k)) → is_due c.out ≡ false
          → Fired k (fire_all call_back (suc fuel) k)
      ended next rest all keep c stop =
          let nothing : due k.total_ticks c.out.pending ≡ [] =
            first_due-none k.total_ticks c.out.pending c.sorted
              (ap (λ (t : ℕ). first_due t c.out.pending) (sym c.same_ticks) ∙ stop) in
          record {
            out = c.out;
            returns = rw (c.returns, stop) refl;
            sorted = c.sorted;
            none_due = nothing;
            handled = rw (all, ← c.same_due, nothing) c.same_devices;
            kept = λ p m late. c.kept p (keep p m late);
            same_ticks = c.same_ticks;
            same_status = c.same_status;
            same_level = c.same_level;
          }

      further :
          (next : PendingInterrupt A) (rest : List (PendingInterrupt A))
          → due k.total_ticks k.pending ≡ next ∷ due k.total_ticks rest
          → ((p : PendingInterrupt A) → In p k.pending → k.total_ticks < p.at → In p rest)
          → (c : Called (taken k next rest) (fire call_back k)) → is_due c.out ≡ true
          → Fired c.out (fire_all call_back fuel c.out)
          → Fired k (fire_all call_back (suc fuel) k)
      further next rest all keep c more m = record {
        out = m.out;
        returns = rw (c.returns, more) m.returns;
        sorted = m.sorted;
        none_due = ap (λ (t : ℕ). due t m.out.pending) (sym c.same_ticks) ∙ m.none_due;
        handled =
            rw all (rw (c.same_status, c.same_ticks, c.same_due, c.same_devices) at m.handled);
        kept = λ p i late. m.kept p (c.kept p (keep p i late)) (omega (arith, c.same_ticks));
        same_ticks = m.same_ticks ∙ c.same_ticks;
        same_status = m.same_status ∙ c.same_status;
        same_level = m.same_level ∙ c.same_level;
      }

  -- What CheckIfDue does once it fires, at time `now`.
  pub record Ran (k : Kernel A D) (now : ℕ) (result : Option (Bool × Kernel A D)) : Type 0 where
    pub out : Kernel A D
    pub returns : result ≡ some (true, out)
    pub sorted : Sorted out.pending
    pub none_due : due now out.pending ≡ []
    pub handled : out.devices ≡ handle k.status (due now k.pending) k.devices
    pub kept : (p : PendingInterrupt A) → In p k.pending → now < p.at → In p out.pending
    pub clock : out.total_ticks ≡ now
    pub left_handler : out.in_handler ≡ false
    pub same_status : out.status ≡ k.status
    pub same_level : out.level ≡ k.level

  run_handlers-Ran :
      (k : Kernel A D)
      → first_due k.total_ticks k.pending ≡ true
      → Sorted k.pending
      → Ran k k.total_ticks (run_handlers call_back k)
  unfolding run_handlers is_due enter
  run_handlers-Ran k e s =
      let m =
        fire_all-Fired (length k.pending) (enter call_back k) e refl s
          (length-due k.total_ticks k.pending) in
      record {
        out = record m.out { in_handler = false };
        returns = rw m.returns refl;
        sorted = m.sorted;
        none_due = m.none_due;
        handled = m.handled;
        kept = m.kept;
        clock = m.same_ticks;
        left_handler = refl;
        same_status = m.same_status;
        same_level = m.same_level;
      }

  waited-Ran :
      (k : Kernel A D) (idle now : ℕ)
      → first_due now k.pending ≡ true
      → Sorted k.pending
      → Ran k now (run_handlers call_back (record k { idle_ticks = idle; total_ticks = now }))
  waited-Ran k idle now e s =
      let r = run_handlers-Ran (record k { idle_ticks = idle; total_ticks = now }) e s in
      record {
        out = r.out;
        returns = r.returns;
        sorted = r.sorted;
        none_due = r.none_due;
        handled = r.handled;
        kept = r.kept;
        clock = r.clock;
        left_handler = r.left_handler;
        same_status = r.same_status;
        same_level = r.same_level;
      }

  check_front-Ran :
      (pending : List (PendingInterrupt A)) (advance_clock : Bool) (k : Kernel A D)
      → k.pending ≡ pending
      → Sorted k.pending
      → Quiet advance_clock k (check_front call_back pending advance_clock k)
        ⊎ ((now : ℕ) × RunsAt advance_clock k now
            × Ran k now (check_front call_back pending advance_clock k))
  unfolding check_front Quiet RunsAt first_due
  check_front-Ran [] advance_clock k e s = inl (refl, ap (due k.total_ticks) e, inr e)
  check_front-Ran (next ∷ rest) advance_clock k e s =
      elim (Bool-cases (ltb k.total_ticks next.at)) [
        | inr now ↦
            let front : first_due k.total_ticks k.pending ≡ true =
              ap (first_due k.total_ticks) e ∙ ground arith in
            inr (k.total_ticks, inl (refl, front), rw now (run_handlers-Ran k front s))
        | inl later ↦
            let none_yet : due k.total_ticks k.pending ≡ [] =
              ap (due k.total_ticks) e
              ∙ due-late k.total_ticks next.at (next ∷ rest) (ground arith)
                  (omega arith, (subst Sorted e s).0) in
            elim (Bool-cases advance_clock) [
              | inr stays ↦ inl (rw (later, stays) refl, none_yet, inl stays)
              | inl advances ↦ inr (
                next.at,
                inr (advances, none_yet, (next, rest, e, refl)),
                rw (later, advances)
                    (waited-Ran k (k.idle_ticks + (next.at - k.total_ticks)) next.at
                      (ap (first_due next.at) e ∙ ground arith) s),
              )
            ]
      ]

  -- With the pending interrupts in order of time, interrupts off, and handlers that schedule
  -- nothing for the present moment, CheckIfDue returns. Either nothing is due, the clock may not
  -- advance or nothing is pending, and nothing changes; or the clock stands at the present time, if
  -- an interrupt is due, and else, if it may advance, at the first interrupt's, the handlers of all
  -- that were due then were called in order of time, nothing that is pending is due, the rest is
  -- still in order of time, and no interrupt that was not due is lost.
  pub check_if_due-Ran :
      (advance_clock : Bool) (k : Kernel A D)
      → is_on k.level ≡ false
      → Sorted k.pending
      → Quiet advance_clock k (check_if_due call_back advance_clock k)
        ⊎ ((now : ℕ) × RunsAt advance_clock k now
            × Ran k now (check_if_due call_back advance_clock k))
  unfolding check_if_due
  check_if_due-Ran advance_clock k off s = rw off (check_front-Ran k.pending advance_clock k refl s)
