-- ===== src/Condition/Waking.antt =====
-- Signal and Broadcast wake the waiters, also those that have not come to their P yet.
use everything.Base.{
  append_nil, ℕ, zero, suc, ◌+◌, ◌≤◌, ◌≡◌, ◌≢◌, refl, sym, ap, subst, ◌∙◌, ◌⊎◌, inl, inr, true,
  false, Option, none, some, List, [], ◌∷◌, ◌++◌, ◌==◌, if◌then◌else◌, arith, length, append_assoc,
}
use native.Mathlib.Decide.{ℕ_discrete}
use everything.Semaphore.{Semaphore, is_in_list, v}
use everything.Semaphore.Items.{append-new}
use everything.Lock.{is_held_by}
use everything.Condition.{
  Monitor, put_semaphore, waiter_v, signal_queue, signal, broadcast_rounds, broadcast,
}

abbrev pub queued : Monitor → List ℕ → Monitor
queued m ws = record m { condition = record { wait_queue = ws } }

abbrev pub bumped : Option Semaphore → Option Semaphore
bumped none = none
bumped (some s) = some (record { value = s.value + 1; queue = [] })

-- The threads are not in the list, and differ.
abbrev pub New : List ℕ → List ℕ → Type 0
New ready_list [] = Unit {0}
New ready_list (t ∷ ts) = (is_in_list ready_list t ≡ false) × New (ready_list ++ t ∷ []) ts

-- The waiters' addresses differ.
abbrev pub Differ : List ℕ → Type 0
Differ [] = Unit {0}
Differ (w ∷ ws) = (is_in_list ws w ≡ false) × Differ ws

-- A semaphore in whose queue at most its own thread sleeps.
pub record Waiter (semaphores : ℕ → Option Semaphore) (w : ℕ) (asleep : List ℕ) : Type 0 where
  pub value : ℕ
  pub there : semaphores w ≡ some (record { value = value; queue = asleep })
  pub own : (asleep ≡ []) ⊎ ((t : ℕ) × (asleep ≡ t ∷ []))

-- The waiters, with the threads that sleep in their P.
pub data Waiting (semaphores : ℕ → Option Semaphore) : List ℕ → List ℕ → Type 0 where
  no_waiter : Waiting semaphores [] []
  waiter :
      (w : ℕ) (asleep ws others sleepers : List ℕ)
      → Waiter semaphores w asleep
      → Waiting semaphores ws others
      → sleepers ≡ asleep ++ others
      → Waiting semaphores (w ∷ ws) sleepers

put_semaphore-other :
    (semaphores : ℕ → Option Semaphore) (w a : ℕ) (s : Option Semaphore)
    → a ≢ w
    → put_semaphore semaphores w s a ≡ semaphores a
put_semaphore-other semaphores w a s ne = ground arith

put_semaphore-here :
    (semaphores : ℕ → Option Semaphore) (w : ℕ) (s : Option Semaphore)
    → put_semaphore semaphores w s w ≡ s
put_semaphore-here semaphores w s = ground arith

not_first :
    (ws : List ℕ) (a w : ℕ) → is_in_list (a ∷ ws) w ≡ false → (a ≢ w) × (is_in_list ws w ≡ false)
unfolding is_in_list
not_first ws a w e = ((λ same. ground (arith, e)), ground (arith, e))

Waiting-put_semaphore :
    (semaphores : ℕ → Option Semaphore) (w : ℕ) (s : Option Semaphore) (ws sleepers : List ℕ)
    → Waiting semaphores ws sleepers
    → is_in_list ws w ≡ false
    → Waiting (put_semaphore semaphores w s) ws sleepers
Waiting-put_semaphore semaphores w s _ _ no_waiter out = no_waiter
Waiting-put_semaphore semaphores w s _ sleepers (waiter a asleep ws others _ one rest e) out =
    let (ne, out') = not_first ws a w out in
    waiter a asleep ws others sleepers
      (record {
        value = one.value;
        there = put_semaphore-other semaphores w a s ne ∙ one.there;
        own = one.own;
      })
      (Waiting-put_semaphore semaphores w s ws others rest out') e

v-woken :
    (value : ℕ) (asleep ready_list : List ℕ)
    → (asleep ≡ []) ⊎ ((t : ℕ) × (asleep ≡ t ∷ []))
    → New ready_list asleep
    → v (record { value = value; queue = asleep }) ready_list
      ≡ some (record { value = value + 1; queue = [] }, ready_list ++ asleep)
unfolding v
v-woken value [] ready_list own new =
    ap (λ (xs : List ℕ). some (record { value = value + 1; queue = [] }, xs))
      (sym (append_nil ready_list))
v-woken value (t ∷ []) ready_list own new = rw (append-new ready_list t new.0) refl
v-woken value (t ∷ t' ∷ ts) ready_list (inl e) new = cc
v-woken value (t ∷ t' ∷ ts) ready_list (inr (u, e)) new = cc

New-parts :
    (ready_list xs ys : List ℕ)
    → New ready_list (xs ++ ys)
    → New ready_list xs × New (ready_list ++ xs) ys
New-parts ready_list [] ys new =
    (tt, subst (λ (r : List ℕ). New r ys) (sym (append_nil ready_list)) new)
New-parts ready_list (x ∷ xs) ys (first, new) =
    let (here, later) = New-parts (ready_list ++ x ∷ []) xs ys new in
    ((first, here), subst (λ (r : List ℕ). New r ys) (append_assoc ready_list (x ∷ []) xs) later)

module _ (m : Monitor) (u : ℕ) (held : is_held_by m.lock u ≡ true) where
  abbrev woken : ℕ → Option Semaphore → List ℕ → List ℕ → Monitor
  woken w s ws ready_list' = record m {
    condition = record { wait_queue = ws };
    semaphores = put_semaphore m.semaphores w s;
    ready_list = ready_list';
  }

  pub signal-woken :
      (w : ℕ) (ws asleep : List ℕ) (one : Waiter m.semaphores w asleep)
      → New m.ready_list asleep
      → signal (queued m (w ∷ ws)) u
        ≡ some (
            woken w
              (some (record { value = one.value + 1; queue = [] }))
              ws
              (m.ready_list ++ asleep))
  unfolding signal signal_queue waiter_v
  signal-woken w ws asleep one new =
      rw (held, one.there, v-woken one.value asleep m.ready_list one.own new) refl

-- The waiters are woken: their semaphores have one unit more and no sleeper, and the sleepers are ready.
pub record AllWoken (m : Monitor) (ws sleepers : List ℕ) (result : Option Monitor) : Type 0 where
  pub out : Monitor
  pub returns : result ≡ some out
  pub none_left : out.condition.wait_queue ≡ []
  pub ready : out.ready_list ≡ m.ready_list ++ sleepers
  pub same_lock : out.lock ≡ m.lock
  pub semaphores :
      (a : ℕ)
      → out.semaphores a ≡ (if is_in_list ws a then bumped (m.semaphores a) else m.semaphores a)

bumped-step :
    (semaphores : ℕ → Option Semaphore) (w : ℕ) (ws : List ℕ) (a : ℕ) {asleep : List ℕ}
    (one : Waiter semaphores w asleep)
    → is_in_list ws w ≡ false
    → (if is_in_list ws a
        then bumped
            (put_semaphore semaphores w (some (record { value = one.value + 1; queue = [] })) a)
        else put_semaphore semaphores w (some (record { value = one.value + 1; queue = [] })) a)
      ≡ (if is_in_list (w ∷ ws) a then bumped (semaphores a) else semaphores a)
unfolding is_in_list
bumped-step semaphores w ws a {asleep} one out = elim (ℕ_discrete a w) [
  | yes e ↦
      let same : (a == w) ≡ true = ground arith in
      let out' : is_in_list ws a ≡ false = ap (is_in_list ws) e ∙ out in
      let there : semaphores a ≡ some (record { value = one.value; queue = asleep }) =
        ap semaphores e ∙ one.there in
      rw (same, out', there) refl
  | no ne ↦ let other : (a == w) ≡ false = ground arith in rw other refl
]

broadcast_rounds-AllWoken :
    (rounds : ℕ) (m : Monitor) (u : ℕ) (ws sleepers : List ℕ)
    → length ws ≤ rounds
    → is_held_by m.lock u ≡ true
    → Waiting m.semaphores ws sleepers
    → Differ ws
    → New m.ready_list sleepers
    → AllWoken m ws sleepers (broadcast_rounds rounds (queued m ws) u)
unfolding broadcast_rounds is_in_list
broadcast_rounds-AllWoken zero m u _ _ enough held no_waiter differ new = record {
  out = queued m [];
  returns = refl;
  none_left = refl;
  ready = sym (append_nil m.ready_list);
  same_lock = refl;
  semaphores = λ a. refl;
}
broadcast_rounds-AllWoken (suc rounds) m u _ _ enough held no_waiter differ new = record {
  out = queued m [];
  returns = refl;
  none_left = refl;
  ready = sym (append_nil m.ready_list);
  same_lock = refl;
  semaphores = λ a. refl;
}
broadcast_rounds-AllWoken zero m u _ sleepers enough held (waiter w asleep ws others _ one rest e)
      differ new =
    absurd (omega arith)
broadcast_rounds-AllWoken (suc rounds) m u _ sleepers enough held
      (waiter w asleep ws others _ one rest e) (first, differ) new =
    let (here, later) = New-parts m.ready_list asleep others (subst (New m.ready_list) e new) in
    let m' =
      woken m u held w (some (record { value = one.value + 1; queue = [] })) ws
        (m.ready_list ++ asleep) in
    let r =
      broadcast_rounds-AllWoken rounds m' u ws others (omega arith) held
        (Waiting-put_semaphore m.semaphores w _ ws others rest first) differ later in
    record {
      out = r.out;
      returns = rw (signal-woken m u held w ws asleep one here) r.returns;
      none_left = r.none_left;
      ready =
          r.ready
          ∙ append_assoc m.ready_list asleep others
          ∙ ap (λ (xs : List ℕ). m.ready_list ++ xs) (sym e);
      same_lock = r.same_lock;
      semaphores = λ a. r.semaphores a ∙ bumped-step m.semaphores w ws a one first;
    }

-- If the lock is held and the queue has different semaphores, in whose queues at most one thread
-- sleeps, and these threads differ and are not ready, Broadcast ends within a round for each waiter
-- and fails no ASSERT: the queue is empty, each waiter's semaphore has one unit more and no
-- sleeper, every other one is as before, and the sleepers are ready, in the order of the queue,
-- behind the threads that were.
pub broadcast-AllWoken :
    (m : Monitor) (u : ℕ) (sleepers : List ℕ)
    → is_held_by m.lock u ≡ true
    → Waiting m.semaphores m.condition.wait_queue sleepers
    → Differ m.condition.wait_queue
    → New m.ready_list sleepers
    → AllWoken m m.condition.wait_queue sleepers (broadcast m u)
unfolding broadcast
broadcast-AllWoken m u sleepers held waiting differ new =
    broadcast_rounds-AllWoken (length m.condition.wait_queue) m u m.condition.wait_queue sleepers
      (omega arith) held waiting differ new
