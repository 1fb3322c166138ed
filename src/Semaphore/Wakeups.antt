-- ===== src/Semaphore/Wakeups.antt =====
-- Any number of threads on one semaphore, in any order.
mod Examples
use everything.Base.{
  ℕ, zero, suc, ◌+◌, ◌-◌, ◌≤◌, ◌<◌, ◌≡◌, ◌≢◌, refl, sym, ap, ◌∙◌, Bool, true, false, not, Option,
  none, some, List, [], ◌∷◌, ◌++◌, ◌==◌, if◌then◌else◌, assert, ◌>>=◌, ◌>>◌, length, length-append,
  arith, Bool-cases, Option-cases, inl, inr, ◌⊎◌, erase_at, get_elem?, subst,
}
use everything.Semaphore.{
  Semaphore, new, p, v, wake, append, is_in_list, remove_front, ready_to_run,
}

-- The semaphore; the ready list, as far as it holds threads that V woke and that have not run since;
-- and how many P and V have ended.
pub record State : Type 0 where
  pub semaphore : Semaphore
  pub woken : List ℕ
  pub passed : ℕ
  pub posted : ℕ

-- A thread calls P; the woken thread at a place of the list runs again, in P; some thread calls V.
pub data Action : Type 0 where
  enter : ℕ → Action
  resume : ℕ → Action
  post : Action

-- P by a thread, with the woken threads that are left.
attempt : State → List ℕ → ℕ → Option State
unfolding p
attempt s woken thread = do
  (passes, semaphore') ← p s.semaphore thread
  some (record {
    semaphore = semaphore';
    woken = woken;
    passed = if passes then s.passed + 1 else s.passed;
    posted = s.posted;
  })

pub act : Action → State → Option State
unfolding attempt v
act (enter thread) s = attempt s s.woken thread
act (resume place) s =
    get_elem? s.woken place >>= λ thread. attempt s (erase_at s.woken place) thread
act post s = do
  (semaphore', woken') ← v s.semaphore s.woken
  some (record { semaphore = semaphore'; woken = woken'; passed = s.passed; posted = s.posted + 1 })

pub run : List Action → State → Option State
unfolding act
run [] s = some s
run (a ∷ xs) s = act a s >>= λ s'. run xs s'

abbrev pub start : ℕ → State
start n = record { semaphore = new n; woken = []; passed = 0; posted = 0 }

-- The count is right, and as long as a thread sleeps every unit has a woken thread that comes for it.
pub record Sound (n : ℕ) (s : State) : Type 0 where
  pub balance : s.semaphore.value + s.passed ≡ n + s.posted
  pub attended : (s.semaphore.queue ≡ []) ⊎ (s.semaphore.value ≤ length s.woken)

append-some :
    (items : List ℕ) (item : ℕ) {out : List ℕ}
    → append items item ≡ some out
    → out ≡ items ++ item ∷ []
unfolding append
append-some items item e = elim (Bool-cases (is_in_list items item)) [
  | inl f ↦ ground arith
  | inr f ↦ elim (Bool-cases (is_in_list (items ++ item ∷ []) item)) [
    | inl g ↦ ground arith
    | inr g ↦ ground arith
  ]
]

length-erase_at :
    (xs : List ℕ) (i : ℕ) {x : ℕ}
    → get_elem? xs i ≡ some x
    → length xs ≡ suc (length (erase_at xs i))
length-erase_at [] i e = cc
length-erase_at (y ∷ xs) zero e = refl
length-erase_at (y ∷ xs) (suc i) e = ap suc (length-erase_at xs i e)

-- `spare` is how many of the woken threads the attempt uses up.
attempt-Sound :
    (n : ℕ) (s s' : State) (woken : List ℕ) (thread : ℕ)
    → Sound n s
    → length s.woken ≤ length woken + 1
    → ((0 < s.semaphore.value) → (s.semaphore.queue ≡ []) ⊎ (s.semaphore.value - 1 ≤ length woken))
    → attempt s woken thread ≡ some s'
    → Sound n s'
unfolding attempt p
attempt-Sound n s s' woken thread sound less keep e = elim (Bool-cases (s.semaphore.value == 0)) [
  | inl f ↦ elim (Option-cases (append s.semaphore.queue thread)) [
    | inl g ↦ ground arith
    | inr (q, g) ↦ record { balance = ground (arith, sound.balance); attended = inr (ground arith) }
  ]
  | inr f ↦ record { balance = ground (arith, sound.balance); attended = ground (arith, keep) }
]

wake-some :
    (queue woken : List ℕ) {q w : List ℕ}
    → wake queue woken ≡ some (q, w)
    → ((queue ≡ []) × (q ≡ [])) ⊎ (length w ≡ length woken + 1)
unfolding wake remove_front ready_to_run
wake-some [] woken e = inl (refl, ground arith)
wake-some (x ∷ xs) woken e = elim (Option-cases (append woken x)) [
  | inl f ↦ ground arith
  | inr (w', f) ↦ inr (ground (arith, append-some woken x f, length-append woken (x ∷ [])))
]

post-Sound : (n : ℕ) (s s' : State) → Sound n s → act post s ≡ some s' → Sound n s'
unfolding act v
post-Sound n s s' sound e = elim (Option-cases (wake s.semaphore.queue s.woken)) [
  | inl f ↦ ground arith
  | inr ((q, w), f) ↦ record {
    balance = ground (arith, sound.balance);
    attended = ground (arith, wake-some s.semaphore.queue s.woken f, sound.attended);
  }
]

act-Sound : (n : ℕ) (a : Action) (s s' : State) → Sound n s → act a s ≡ some s' → Sound n s'
unfolding act
act-Sound n (enter thread) s s' sound e =
    attempt-Sound n s s' s.woken thread sound (omega arith) (λ pos. ground (arith, sound.attended))
      e
act-Sound n (resume place) s s' sound e = elim (Option-cases (get_elem? s.woken place)) [
  | inl f ↦ ground arith
  | inr (t, f) ↦
      attempt-Sound n s s' (erase_at s.woken place) t sound
        (omega (arith, length-erase_at s.woken place f))
        (λ pos. ground (arith, sound.attended, length-erase_at s.woken place f)) (ground arith)
]
act-Sound n post s s' sound e = post-Sound n s s' sound e

run-Sound_from :
    (n : ℕ) (xs : List Action) (s s' : State) → Sound n s → run xs s ≡ some s' → Sound n s'
unfolding run
run-Sound_from n [] s s' sound e = subst (λ (t : State). Sound n t) (ground arith) sound
run-Sound_from n (a ∷ xs) s s' sound e = go (act a s) refl e (run-Sound_from n xs)
  where
    go :
        (o : Option State)
        → act a s ≡ o
        → (o >>= λ t. run xs t) ≡ some s'
        → ((t t' : State) → Sound n t → run xs t ≡ some t' → Sound n t')
        → Sound n s'
    go none f h rest = cc
    go (some t) f h rest = rest t s' (act-Sound n a s t sound f) h

-- From a new semaphore of value n, after any sequence of steps that fails no ASSERT (a thread calls
-- P, a woken thread runs again in P, a thread calls V), the value and the P that ended are n and
-- the V that ended; and if a thread sleeps, the value is at most the number of threads that were
-- woken and have yet to run: no wake-up is lost.
pub run-Sound : (n : ℕ) (xs : List Action) (s : State) → run xs (start n) ≡ some s → Sound n s
run-Sound n xs s e =
    run-Sound_from n xs (start n) s (record { balance = refl; attended = inl refl }) e
