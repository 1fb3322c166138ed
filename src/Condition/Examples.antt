-- ===== src/Condition/Examples.antt =====
-- Thread 1 holds the lock; thread 5 sleeps on semaphore 10, and the waiter of 11 has not come to its P.
use everything.Base.{ℕ, ◌≡◌, refl, inl, inr, none, some, [], ◌∷◌, ◌==◌, if◌then◌else◌}
use everything.Semaphore.{is_in_list, v}
use everything.Lock.{Lock}
use everything.Lock.Calls.{is_held_by_lem}
use everything.Condition.{Monitor, broadcast}
use everything.Condition.Waking.{waiter, no_waiter, AllWoken, broadcast-AllWoken}
use everything.Condition.Signals.{NotMissed, begin_wait-signal}

abbrev held_by : ℕ → Lock
held_by t = record { semaphore = record { value = 0; queue = [] }; lock_holder = some t }

abbrev two_wait : Monitor
two_wait = record {
  lock = held_by 1;
  condition = record { wait_queue = 10 ∷ 11 ∷ [] };
  semaphores = λ a.
      if a == 10
      then some (record { value = 0; queue = 5 ∷ [] })
      else if a == 11
      then some (record { value = 0; queue = [] })
      else none;
  fresh = 12;
  ready_list = 2 ∷ [];
}

broadcast-AllWoken_example : AllWoken two_wait (10 ∷ 11 ∷ []) (5 ∷ []) (broadcast two_wait 1)
unfolding is_in_list
broadcast-AllWoken_example =
    broadcast-AllWoken two_wait 1 (5 ∷ []) (is_held_by_lem _ 1)
      (waiter 10 (5 ∷ []) (11 ∷ []) [] (5 ∷ [])
        (record { value = 0; there = refl; own = inr (5, refl) })
        (waiter 11 [] [] [] [] (record { value = 0; there = refl; own = inl refl }) no_waiter refl)
        refl)
      (refl, (refl, tt)) (refl, tt)

abbrev none_wait : Monitor
none_wait = record two_wait { condition = record { wait_queue = [] } }

posted :
    v (record { value = 0; queue = [] }) (2 ∷ []) ≡ some (record { value = 1; queue = [] }, 2 ∷ [])
unfolding v
posted = refl

-- Thread 1 waits; thread 7 gets the lock and signals before thread 1 calls P.
begin_wait-signal_example : NotMissed none_wait 1 7 (held_by 7) (2 ∷ 3 ∷ [])
begin_wait-signal_example =
    begin_wait-signal none_wait 1 7 (held_by 7) (record { value = 1; queue = [] }) (2 ∷ 3 ∷ [])
      (2 ∷ []) (is_held_by_lem _ 1) refl posted (is_held_by_lem _ 7)
