-- ===== src/Disk/Latency.antt =====
-- How long a request takes.
use everything.Base.{
  ℕ, ◌+◌, ◌-◌, ◌/◌, ◌≤◌, ◌<◌, Bool, not, ◌&&◌, ltb, ◌==◌, arith, Bool-cases, inl, inr,
}
use everything.FileSystem.Layout.{num_sectors}
use everything.Disk.{distance, time_to_seek, modulo_diff, compute_latency}

modulo_diff-lt : (to from : ℕ) → modulo_diff to from < 32
unfolding modulo_diff
modulo_diff-lt to from = omega arith

seek-le :
    (now last new : ℕ)
    → last < num_sectors
    → new < num_sectors
    → (time_to_seek now last new).0 ≤ 15500
unfolding time_to_seek distance
seek-le now last new l h = omega arith

rotation-lt : (now last new : ℕ) → (time_to_seek now last new).1 < 500
unfolding time_to_seek
rotation-lt now last new = ground arith

-- From and to a sector of the disk, a request takes at least 500 ticks, so that Schedule takes it,
-- and less than 32000.
pub compute_latency-bounds :
    (now last buffer_init new : ℕ) (writing : Bool)
    → last < num_sectors
    → new < num_sectors
    → (500 ≤ compute_latency now last buffer_init new writing)
      × (compute_latency now last buffer_init new writing < 32000)
unfolding compute_latency
compute_latency-bounds now last buffer_init new writing l h =
    let place = time_to_seek now last new in
    let after : ℕ = now + place.0 + place.1 in
    elim (Bool-cases (
      not writing
      && place.0 == 0
      && ltb (modulo_diff new (buffer_init / 500)) ((after - buffer_init) / 500))) [
        | inl e ↦ rw e (omega arith, omega arith)
        | inr e ↦ rw e (
          omega arith,
          omega (
            arith,
            seek-le now last new l h,
            rotation-lt now last new,
            modulo_diff-lt new (after / 500),
          ),
        )
      ]
