-- ===== src/FileSystem/ReadAt/Examples.antt =====
-- Reads of a file of two fragments on a blank disk.
use everything.Base.{ℕ, ◌+◌, ◌*◌, ◌≡◌, refl, none, some, List, [], ◌∷◌, replicate, false, arith}
use everything.Disk.{Disk}
use everything.Disk.FunctionFile.{host, host-zeros}
use everything.FileSystem.Inode.{FileHeader, gather, read_ints}
use everything.FileSystem.ReadAt.{read_at}
use everything.FileSystem.ReadAt.Overrun.{Overrun, read_at-Overrun}
use everything.FileSystem.ReadAt.Within.{InFragments, Answer, read_at-Answer}

abbrev blank : Disk (ℕ → ℕ)
blank = record { file = λ i. 0; last_sector = 0; buffer_init = 0; active = false }

abbrev two_fragments : FileHeader
two_fragments = record {
  id = 1;
  type = 0;
  owner_id = 0;
  last_modified = 0;
  last_accessed = 0;
  link_count = 1;
  num_bytes = 1500;
  num_fragments = 2;
  data_fragments = 16 ∷ 17 ∷ replicate 14 0;
  indirect_block = none;
}

abbrev clock : ℕ → ℕ → ℕ
clock i k = 10000 * i + 100 * k

two_fragments-gathered : gather two_fragments [] ≡ some (16 ∷ 17 ∷ [])
unfolding gather read_ints
two_fragments-gathered = refl

abbrev zeros : List (List ℕ)
zeros = replicate 1024 0 ∷ replicate 1024 0 ∷ []

zeros-held : InFragments host blank.file (16 ∷ 17 ∷ []) 0 zeros
zeros-held = (
  (
    16,
    refl,
    omega arith,
    refl,
    (
      host-zeros _ 128,
      (
        host-zeros _ 128,
        (
          host-zeros _ 128,
          (
            host-zeros _ 128,
            (host-zeros _ 128, (host-zeros _ 128, (host-zeros _ 128, (host-zeros _ 128, tt)))),
          ),
        ),
      ),
    ),
  ),
  (
    (
      17,
      refl,
      omega arith,
      refl,
      (
        host-zeros _ 128,
        (
          host-zeros _ 128,
          (
            host-zeros _ 128,
            (
              host-zeros _ 128,
              (host-zeros _ 128, (host-zeros _ 128, (host-zeros _ 128, (host-zeros _ 128, tt)))),
            ),
          ),
        ),
      ),
    ),
    tt,
  ),
)

-- Ten bytes from byte 1020 on, of both fragments.
read_at-Answer_example :
    Answer host zeros 10 1020 blank (read_at host clock two_fragments [] 10 1020 blank)
read_at-Answer_example =
    read_at-Answer host clock two_fragments [] (16 ∷ 17 ∷ []) zeros 1020 blank refl
      two_fragments-gathered zeros-held (omega arith) 10 10 (omega arith) (omega arith) refl
      (omega arith)

-- Ten bytes from byte 1100 on.
read_at-Overrun_example :
    Overrun host clock 1 (16 ∷ 17 ∷ []) (replicate (1 * 1024) 0) blank
    × (read_at host clock two_fragments [] 10 1100 blank ≡ none)
read_at-Overrun_example =
    read_at-Overrun host clock two_fragments [] (16 ∷ 17 ∷ []) (replicate 1024 0 ∷ []) 10 1100 10 1
      1 blank refl two_fragments-gathered (omega arith) (omega arith) (omega arith) refl
      (omega arith) (omega arith) refl zeros-held.1
