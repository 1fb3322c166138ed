-- ===== src/Condition.antt =====
-- Condition of threads/synch.h and threads/synch.cc, over Semaphore and Lock. The semaphores of the waiting
-- threads stand in a store by their addresses; a thread is a number. Wait is cut at its call of P, where the thread
-- may sleep; the code before it runs under the lock. `none` is a failed ASSERT, or the use of a deleted semaphore.
pub mod Waking
pub mod Signals
mod Examples
use everything.Base.{
  ℕ, zero, suc, ◌+◌, Bool, true, false, not, Option, none, some, List, [], ◌∷◌, ◌==◌, if◌then◌else◌,
  assert, ◌>>=◌, ◌>>◌, length,
}
use everything.Semaphore.{Semaphore, append, remove_front, p, v}
use everything.Semaphore as Plain
use everything.Lock.{Lock, is_held_by, release, release_semaphore}

pub record Condition : Type 0 where
  pub wait_queue : List ℕ

-- Condition::Condition
abbrev pub new_condition : Condition
new_condition = record { wait_queue = [] }

-- What the threads share: the lock, the condition, the semaphores by their addresses, the address that the next
-- `new` gives, and the ready list.
pub record Monitor : Type 0 where
  pub lock : Lock
  pub condition : Condition
  pub semaphores : ℕ → Option Semaphore
  pub fresh : ℕ
  pub ready_list : List ℕ

abbrev pub put_semaphore : (ℕ → Option Semaphore) → ℕ → Option Semaphore → ℕ → Option Semaphore
put_semaphore semaphores w s a = if a == w then s else semaphores a

-- Condition::Wait up to its P: the waiter, which is queued, and the release of the lock.
pub begin_wait : Monitor → ℕ → Option (ℕ × Monitor)
unfolding append
begin_wait m current_thread = do
  assert (is_held_by m.lock current_thread)
  let waiter = m.fresh
  wait_queue' ← append m.condition.wait_queue waiter
  lock' ← release m.lock current_thread
  (lock'', ready_list') ← release_semaphore lock' m.ready_list
  some (
    waiter,
    record {
      lock = lock'';
      condition = record { wait_queue = wait_queue' };
      semaphores = put_semaphore m.semaphores waiter (some (Plain.new 0));
      fresh = m.fresh + 1;
      ready_list = ready_list';
    },
  )

-- The P of Condition::Wait, from its start or from the return of Sleep; the result is whether it ends.
pub waiter_p : Monitor → ℕ → ℕ → Option (Bool × Monitor)
unfolding p
waiter_p m current_thread waiter = do
  s ← m.semaphores waiter
  (ended, s') ← p s current_thread
  some (ended, record m { semaphores = put_semaphore m.semaphores waiter (some s') })

-- The end of Condition::Wait, behind the Acquire of the lock: delete waiter.
pub end_wait : Monitor → ℕ → Monitor
end_wait m waiter = record m { semaphores = put_semaphore m.semaphores waiter none }

-- waiter->V() on the store.
pub waiter_v : Monitor → ℕ → Option Monitor
unfolding v
waiter_v m waiter = do
  s ← m.semaphores waiter
  (s', ready_list') ← v s m.ready_list
  some (record m {
    semaphores = put_semaphore m.semaphores waiter (some s');
    ready_list = ready_list';
  })

-- What Signal does with the queue.
pub signal_queue : Monitor → List ℕ → Option Monitor
unfolding waiter_v remove_front
signal_queue m [] = some m
signal_queue m (x ∷ xs) = do
  (waiter, wait_queue') ← remove_front (x ∷ xs)
  waiter_v (record m { condition = record { wait_queue = wait_queue' } }) waiter

-- Condition::Signal
pub signal : Monitor → ℕ → Option Monitor
unfolding signal_queue
signal m current_thread = do
  assert (is_held_by m.lock current_thread)
  signal_queue m m.condition.wait_queue

-- The loop of Broadcast, with the rounds left.
pub broadcast_rounds : ℕ → Monitor → ℕ → Option Monitor
unfolding signal
broadcast_rounds zero m current_thread = elim m.condition.wait_queue [ [] ↦ some m | x ∷ xs ↦ none ]
broadcast_rounds (suc rounds) m current_thread = elim m.condition.wait_queue [
  | [] ↦ some m
  | x ∷ xs ↦ do m' ← signal m current_thread; broadcast_rounds rounds m' current_thread
]

-- Condition::Broadcast, with a round for each waiter.
pub broadcast : Monitor → ℕ → Option Monitor
unfolding broadcast_rounds
broadcast m current_thread = broadcast_rounds (length m.condition.wait_queue) m current_thread
