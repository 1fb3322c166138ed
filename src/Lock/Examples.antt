-- ===== src/Lock/Examples.antt =====
-- Two threads on one lock: the first holds it while the second sleeps.
use everything.Base.{none, [], ◌∷◌}
use everything.Lock.{Lock, set_holder}
use everything.Lock.Steps.{System, start, move, acquiring, entered, holding}

abbrev no_unit : Lock
no_unit = record { semaphore = record { value = 0; queue = [] }; lock_holder = none }

abbrev one_waits : Lock
one_waits = record { semaphore = record { value = 0; queue = 2 ∷ [] }; lock_holder = none }

abbrev passed : System
passed = move start 1 entered no_unit

abbrev asleep : System
asleep = move passed 2 acquiring one_waits

abbrev held : System
held = move asleep 1 holding (set_holder one_waits 1)
