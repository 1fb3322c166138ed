-- ===== src/Lock/Exclusion.antt =====
-- At most one thread holds a lock, and its Release passes its ASSERT.
use everything.Base.{ℕ, ◌+◌, ◌-◌, ◌≡◌, ◌≢◌, ◌⊎◌, Bool, true, false, Option, none, some}
use everything.Semaphore.{Semaphore}
use everything.Lock.{Lock}
use everything.Lock.Steps.{Phase, outside, acquiring, entered, holding, leaving, System}

-- A thread in this phase has a unit of the semaphore.
abbrev inside : Phase → Bool
inside outside = false
inside acquiring = false
inside entered = true
inside holding = true
inside leaving = true

-- What lockHolder is while thread `t` has the unit.
abbrev holder : ℕ → Phase → Option ℕ
holder t outside = none
holder t acquiring = none
holder t entered = none
holder t holding = some t
holder t leaving = none

-- Nobody has the unit, or one thread alone.
data Exclusive (s : System) : Type 0 where
  free :
      s.lock.semaphore.value ≡ 1
      → s.lock.lock_holder ≡ none
      → ((t : ℕ) → inside (s.phase t) ≡ false)
      → Exclusive s
  taken :
      (t : ℕ)
      → s.lock.semaphore.value ≡ 0
      → s.lock.lock_holder ≡ holder t (s.phase t)
      → inside (s.phase t) ≡ true
      → ((u : ℕ) → u ≢ t → inside (s.phase u) ≡ false)
      → Exclusive s

-- P ends exactly if there is a unit, and takes it.
Attempted : Lock → Bool → Lock → Type 0
Attempted lock ended lock' =
    (((lock.semaphore.value ≡ 0) × (ended ≡ false) × (lock'.semaphore.value ≡ 0))
      ⊎ ((lock.semaphore.value ≢ 0)
          × (ended ≡ true)
          × (lock'.semaphore.value ≡ lock.semaphore.value - 1)))
    × (lock'.lock_holder ≡ lock.lock_holder)

Released : Lock → Lock → Type 0
Released lock lock' = (lock'.semaphore ≡ lock.semaphore) × (lock'.lock_holder ≡ none)

Posted : Lock → Lock → Type 0
Posted lock lock' =
    (lock'.semaphore.value ≡ lock.semaphore.value + 1) × (lock'.lock_holder ≡ lock.lock_holder)
