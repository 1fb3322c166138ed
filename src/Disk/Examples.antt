-- ===== src/Disk/Examples.antt =====
-- Requests to a disk on a file that is a function from offsets to bytes.
use everything.Base.{ℕ, ◌*◌, ◌≤◌, ◌<◌, ◌≡◌, refl, true, false, none, [], ◌∷◌, arith}
use everything.Disk.{Disk, compute_latency, read_requests, write_requests}
use everything.Disk.FunctionFile.{host}
use everything.Disk.Latency.{compute_latency-bounds}
use everything.Disk.Sectors.{RoundTrip, read_length-write_length, read_requests-write_requests-fail}

abbrev blank : Disk (ℕ → ℕ)
blank = record { file = λ i. 0; last_sector = 40; buffer_init = 0; active = false }

-- Three bytes of a buffer of four, into sector 9.
read_length-write_length_example : RoundTrip host (λ i. 100 * i) 9 3 (7 ∷ 8 ∷ 9 ∷ 10 ∷ []) blank
read_length-write_length_example =
    read_length-write_length host (λ i. 100 * i) 9 3 (7 ∷ 8 ∷ 9 ∷ 10 ∷ []) blank refl (omega arith)
      (omega arith)

read_requests-write_requests-fail_example :
    (read_requests host 0 8 16 [] blank ≡ none) × (write_requests host 0 8 16 [] blank ≡ none)
read_requests-write_requests-fail_example = read_requests-write_requests-fail host 0 6 16 [] blank

-- From sector 40 to sector 1023 at time 1234.
compute_latency-bounds_example :
    (500 ≤ compute_latency 1234 40 0 1023 true) × (compute_latency 1234 40 0 1023 true < 32000)
compute_latency-bounds_example =
    compute_latency-bounds 1234 40 0 1023 true (omega arith) (omega arith)
