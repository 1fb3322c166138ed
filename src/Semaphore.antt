-- ===== src/Semaphore.antt =====
-- Semaphore of threads/synch.cc, with what it uses of lib/list.cc and threads/scheduler.cc. A thread is a
-- number. Interrupts are off in P and V, so the code from one Sleep to the next is one step; `none` is
-- a failed ASSERT.
pub mod Items
pub mod Wakeups
use everything.Base.{
  ℕ, zero, suc, ◌+◌, ◌-◌, Bool, true, false, not, Option, none, some, List, [], ◌∷◌, ◌++◌, ◌==◌,
  if◌then◌else◌, assert, ◌>>=◌, ◌>>◌,
}

-- List<T>::IsInList
unfoldable pub is_in_list : List ℕ → ℕ → Bool
is_in_list [] item = false
is_in_list (x ∷ xs) item = let rest = is_in_list xs item in if item == x then true else rest

-- List<T>::Append, on the items in their order.
unfoldable pub append : List ℕ → ℕ → Option (List ℕ)
unfolding is_in_list
append items item = do
  assert (not (is_in_list items item))
  let items' = items ++ item ∷ []
  assert (is_in_list items' item)
  some items'

-- List<T>::RemoveFront
unfoldable pub remove_front : List ℕ → Option (ℕ × List ℕ)
remove_front [] = none
remove_front (x ∷ xs) = some (x, xs)

-- Scheduler::ReadyToRun on the ready list.
pub ready_to_run : List ℕ → ℕ → Option (List ℕ)
unfolding append
ready_to_run ready_list thread = append ready_list thread

pub record Semaphore : Type 0 where
  pub value : ℕ
  pub queue : List ℕ

-- Semaphore::Semaphore
abbrev pub new : ℕ → Semaphore
new initial_value = record { value = initial_value; queue = [] }

-- Semaphore::P from its start, or from the return of Sleep, to the next Sleep or its end. The result
-- is whether P ends.
unfoldable pub p : Semaphore → ℕ → Option (Bool × Semaphore)
unfolding append
p s current_thread =
    let sleeps = (do
      queue' ← append s.queue current_thread
      some (false, record s { queue = queue' })) in
    if s.value == 0 then sleeps else some (true, record s { value = s.value - 1 })

-- What V does with the queue.
pub wake : List ℕ → List ℕ → Option (List ℕ × List ℕ)
unfolding remove_front ready_to_run
wake [] ready_list = some ([], ready_list)
wake (x ∷ xs) ready_list = do
  (thread, queue') ← remove_front (x ∷ xs)
  ready_list' ← ready_to_run ready_list thread
  some (queue', ready_list')

-- Semaphore::V, with the ready list.
unfoldable pub v : Semaphore → List ℕ → Option (Semaphore × List ℕ)
unfolding wake
v s ready_list = do
  (queue', ready_list') ← wake s.queue ready_list
  some (record { value = s.value + 1; queue = queue' }, ready_list')
