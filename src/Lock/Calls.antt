-- ===== src/Lock/Calls.antt =====
-- IsHeldByCurrentThread and the two parts of Release, for the code that calls it.
use everything.Base.{ℕ, ◌≡◌, refl, true, none, some, List, arith}
use everything.Semaphore.{Semaphore, v}
use everything.Lock.{Lock, is_held_by, release, release_semaphore}

pub release_lem :
    (lock : Lock) (t : ℕ)
    → is_held_by lock t ≡ true
    → release lock t ≡ some (record lock { lock_holder = none })
unfolding release
release_lem lock t held = rw held refl

pub release_semaphore_lem :
    (lock : Lock) (ready_list ready_list' : List ℕ) (s : Semaphore)
    → v lock.semaphore ready_list ≡ some (s, ready_list')
    → release_semaphore lock ready_list ≡ some (record lock { semaphore = s }, ready_list')
unfolding release_semaphore
release_semaphore_lem lock ready_list ready_list' s posted = rw posted refl

pub is_held_by_lem :
    (semaphore : Semaphore) (t : ℕ)
    → is_held_by (record { semaphore = semaphore; lock_holder = some t }) t ≡ true
unfolding is_held_by
is_held_by_lem semaphore t = ground arith
