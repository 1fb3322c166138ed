-- ===== src/Condition/Signals.antt =====
-- A Signal is not lost: the P of the waiter ends, whether it sleeps by then or not.
use everything.Base.{
  append_nil, ℕ, ◌+◌, ◌-◌, ◌≡◌, ◌≢◌, refl, ap, ◌∙◌, inl, true, false, Option, none, some, List, [],
  ◌∷◌, ◌++◌, ◌==◌, arith,
}
use everything.Semaphore.{Semaphore, is_in_list, append, p, v}
use everything.Semaphore.Items.{append-new}
use everything.Semaphore as Plain
use everything.Lock.{Lock, is_held_by}
use everything.Lock.Calls.{release_lem, release_semaphore_lem}
use everything.Condition.{Monitor, put_semaphore, begin_wait, waiter_p, signal}
use everything.Condition.Waking.{queued, New, Waiter, signal-woken}

-- Signal has taken the front waiter, whose P ends for any thread that comes to it.
pub record Passes (m : Monitor) (w : ℕ) (ws asleep : List ℕ) (result : Option Monitor)
    : Type 0 where
  pub out : Monitor
  pub after_p : Monitor
  pub returns : result ≡ some out
  pub rest : out.condition.wait_queue ≡ ws
  pub ready : out.ready_list ≡ m.ready_list ++ asleep
  pub same_lock : out.lock ≡ m.lock
  pub others : (a : ℕ) → a ≢ w → out.semaphores a ≡ m.semaphores a
  pub ends : (t : ℕ) → waiter_p out t w ≡ some (true, after_p)

pub signal-Passes :
    (m : Monitor) (u w : ℕ) (ws asleep : List ℕ)
    → is_held_by m.lock u ≡ true
    → Waiter m.semaphores w asleep
    → New m.ready_list asleep
    → Passes m w ws asleep (signal (queued m (w ∷ ws)) u)
unfolding waiter_p p
signal-Passes m u w ws asleep held one new =
    let units = some (record { value = one.value + 1; queue = [] }) in
    let out : Monitor = record m {
      condition = record { wait_queue = ws };
      semaphores = put_semaphore m.semaphores w units;
      ready_list = m.ready_list ++ asleep;
    } in
    let here : put_semaphore m.semaphores w units w ≡ units = ground arith in
    let some_unit : (one.value + 1 == 0) ≡ false = ground arith in
    record {
      out = out;
      after_p = record out {
        semaphores =
            put_semaphore out.semaphores w
              (some (record { value = one.value + 1 - 1; queue = [] }));
      };
      returns = signal-woken m u held w ws asleep one new;
      rest = refl;
      ready = refl;
      same_lock = refl;
      others = λ a ne. ground arith;
      ends = λ t. rw (here, some_unit) refl;
    }

-- Wait has queued its semaphore and freed the lock.
pub record Queued (m : Monitor) (result : Option (ℕ × Monitor)) : Type 0 where
  pub out : Monitor
  pub returns : result ≡ some (m.fresh, out)
  pub last : out.condition.wait_queue ≡ m.condition.wait_queue ++ m.fresh ∷ []
  pub no_holder : out.lock.lock_holder ≡ none
  pub waiter : Waiter out.semaphores m.fresh []

pub begin_wait-Queued :
    (m : Monitor) (t : ℕ) {s : Semaphore} {ready_list : List ℕ}
    → is_held_by m.lock t ≡ true
    → is_in_list m.condition.wait_queue m.fresh ≡ false
    → v m.lock.semaphore m.ready_list ≡ some (s, ready_list)
    → Queued m (begin_wait m t)
unfolding begin_wait
begin_wait-Queued m t {s} {ready_list} held new posted = record {
  out = record {
    lock = record { semaphore = s; lock_holder = none };
    condition = record { wait_queue = m.condition.wait_queue ++ m.fresh ∷ [] };
    semaphores = put_semaphore m.semaphores m.fresh (some (Plain.new 0));
    fresh = m.fresh + 1;
    ready_list = ready_list;
  };
  returns =
      rw
        (
          held,
          append-new m.condition.wait_queue m.fresh new,
          release_lem m.lock t held,
          release_semaphore_lem (record m.lock { lock_holder = none }) m.ready_list ready_list s
              posted,
        )
        refl;
  last = refl;
  no_holder = refl;
  waiter = record { value = 0; there = ground arith; own = inl refl };
}

-- The signal comes before the waiter has called P.
pub record NotMissed (m : Monitor) (t u : ℕ) (lock : Lock) (ready_list : List ℕ) : Type 0 where
  queued_m : Monitor
  woken_m : Monitor
  final : Monitor
  waits : begin_wait m t ≡ some (m.fresh, queued_m)
  signals : signal (record queued_m { lock = lock; ready_list = ready_list }) u ≡ some woken_m
  none_left : woken_m.condition.wait_queue ≡ []
  same_ready : woken_m.ready_list ≡ ready_list
  passes : waiter_p woken_m t m.fresh ≡ some (true, final)

-- If a thread that holds the lock waits on a condition without waiters, the V of the lock fails no
-- ASSERT, and a thread that then holds the lock signals before the waiter has called P, whatever
-- the lock and the ready list have become: Wait and Signal fail no ASSERT, no waiter is left in the
-- queue, no thread is made ready, and the P of the waiter ends at once.
pub begin_wait-signal :
    (m : Monitor) (t u : ℕ) (lock : Lock) (s : Semaphore) (ready_list ready_list' : List ℕ)
    → is_held_by m.lock t ≡ true
    → m.condition.wait_queue ≡ []
    → v m.lock.semaphore m.ready_list ≡ some (s, ready_list')
    → is_held_by lock u ≡ true
    → NotMissed m t u lock ready_list
begin_wait-signal m t u lock s ready_list ready_list' held none_before posted held' =
    let q =
      begin_wait-Queued m t held
        (unfold is_in_list in (ap (λ (ws : List ℕ). is_in_list ws m.fresh) none_before)) posted in
    let m' : Monitor = record q.out { lock = lock; ready_list = ready_list } in
    let front : q.out.condition.wait_queue ≡ m.fresh ∷ [] =
      q.last ∙ ap (λ (ws : List ℕ). ws ++ m.fresh ∷ []) none_before in
    let g = signal-Passes m' u m.fresh [] [] held' q.waiter tt in
    record {
      queued_m = q.out;
      woken_m = g.out;
      final = g.after_p;
      waits = q.returns;
      signals = ap (λ (ws : List ℕ). signal (queued m' ws) u) front ∙ g.returns;
      none_left = g.rest;
      same_ready = g.ready ∙ append_nil ready_list;
      passes = g.ends t;
    }
