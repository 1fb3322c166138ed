-- ===== src/Lock/Steps.antt =====
-- Threads on one lock, in any order: each acquires it, holds it, and releases it.
use everything.Base.{ℕ, Bool, some, List, [], ◌==◌, ◌≡◌, ◌⊎◌, if◌then◌else◌}
use everything.Lock.{Lock, new_lock, acquire, set_holder, release, release_semaphore}

-- Where a thread stands: outside; in the P of Acquire; behind it; between Acquire and Release; before the V
-- of Release.
pub data Phase : Type 0 where
  outside acquiring entered holding leaving : Phase

pub record System : Type 0 where
  pub lock : Lock
  pub ready_list : List ℕ
  pub phase : ℕ → Phase

abbrev pub move : System → ℕ → Phase → Lock → System
move s t ph lock = record s { lock = lock; phase = λ u. if u == t then ph else s.phase u }

pub data Step (s : System) : System → Type 0 where
  attempt :
      (t : ℕ) (ended : Bool) (lock' : Lock)
      → (s.phase t ≡ outside) ⊎ (s.phase t ≡ acquiring)
      → acquire s.lock t ≡ some (ended, lock')
      → Step s (move s t (if ended then entered else acquiring) lock')
  take_over : (t : ℕ) → s.phase t ≡ entered → Step s (move s t holding (set_holder s.lock t))
  give_up :
      (t : ℕ) (lock' : Lock)
      → s.phase t ≡ holding
      → release s.lock t ≡ some lock'
      → Step s (move s t leaving lock')
  post :
      (t : ℕ) (lock' : Lock) (ready_list' : List ℕ)
      → s.phase t ≡ leaving
      → release_semaphore s.lock s.ready_list ≡ some (lock', ready_list')
      → Step s (record (move s t outside lock') { ready_list = ready_list' })

abbrev pub start : System
start = record { lock = new_lock; ready_list = []; phase = λ t. outside }

pub data Reachable : System → Type 0 where
  at_start : Reachable start
  after : {s s' : System} → Reachable s → Step s s' → Reachable s'
