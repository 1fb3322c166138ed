-- ===== src/Semaphore/Wakeups/Examples.antt =====
-- A run of three threads on a semaphore of value 0.
use everything.Base.{◌≡◌, refl, some, List, [], ◌∷◌}
use everything.Semaphore.{p, v, wake, append, is_in_list, remove_front, ready_to_run}
use everything.Semaphore.Wakeups.{
  State, Action, enter, resume, post, attempt, act, run, start, Sound, run-Sound,
}

-- Threads 1 and 2 sleep, a V wakes 1, thread 3 comes first, and 1 sleeps again.
abbrev overtaken : List Action
overtaken = enter 1 ∷ enter 2 ∷ post ∷ enter 3 ∷ resume 0 ∷ []

abbrev both_asleep : State
both_asleep = record {
  semaphore = record { value = 0; queue = 2 ∷ 1 ∷ [] };
  woken = [];
  passed = 1;
  posted = 1;
}

overtaken_run : run overtaken (start 0) ≡ some both_asleep
unfolding run act attempt p v wake append is_in_list remove_front ready_to_run
overtaken_run = refl

run-Sound_example : Sound 0 both_asleep
run-Sound_example = run-Sound 0 overtaken both_asleep overtaken_run
