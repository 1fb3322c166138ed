-- ===== src/Lock.antt =====
-- Lock of threads/synch.cc, over Semaphore. Interrupts are on between the calls of P and V and the
-- assignments of lockHolder, so each is a step of its own; `none` is a failed ASSERT.
pub mod Calls
pub mod Steps
pub mod Exclusion
mod Examples
use everything.Base.{ℕ, Bool, true, false, Option, none, some, List, ◌==◌, assert, ◌>>=◌, ◌>>◌}
use everything.Semaphore.{Semaphore, new, p, v}

pub record Lock : Type 0 where
  pub semaphore : Semaphore
  pub lock_holder : Option ℕ

-- Lock::Lock
pub new_lock : Lock
new_lock = record { semaphore = new 1; lock_holder = none }

-- lockHolder == kernel->currentThread
abbrev pub is_thread : Option ℕ → ℕ → Bool
is_thread none current_thread = false
is_thread (some holder) current_thread = holder == current_thread

-- Lock::IsHeldByCurrentThread
pub is_held_by : Lock → ℕ → Bool
is_held_by lock current_thread = is_thread lock.lock_holder current_thread

-- The P of Lock::Acquire, from its start or from the return of Sleep; the result is whether it ends.
pub acquire : Lock → ℕ → Option (Bool × Lock)
acquire lock current_thread = do
  (ended, semaphore') ← p lock.semaphore current_thread
  some (ended, record lock { semaphore = semaphore' })

-- The rest of Lock::Acquire.
pub set_holder : Lock → ℕ → Lock
set_holder lock current_thread = record lock { lock_holder = some current_thread }

-- Lock::Release up to its call of V.
pub release : Lock → ℕ → Option Lock
unfolding is_held_by
release lock current_thread = do
  assert (is_held_by lock current_thread)
  some (record lock { lock_holder = none })

-- The V of Lock::Release, with the ready list.
pub release_semaphore : Lock → List ℕ → Option (Lock × List ℕ)
release_semaphore lock ready_list = do
  (semaphore', ready_list') ← v lock.semaphore ready_list
  some (record lock { semaphore = semaphore' }, ready_list')
