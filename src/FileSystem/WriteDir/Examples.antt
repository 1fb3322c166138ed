-- ===== src/FileSystem/WriteDir/Examples.antt =====
-- A directory of two fragments on a blank disk, written and read.
use everything.Base.{
  ℕ, ◌+◌, ◌*◌, none, List, [], ◌∷◌, replicate, length-replicate, false, refl, arith,
}
use everything.Disk.{Disk}
use everything.Disk.FunctionFile.{host}
use everything.FileSystem.Inode.{FileHeader}
use everything.FileSystem.WriteDir.{write_inside}
use everything.FileSystem.WriteDir.ReadBack.{ReadBack, write_inside-ReadBack}

abbrev blank : Disk (ℕ → ℕ)
blank = record { file = λ i. 0; last_sector = 0; buffer_init = 0; active = false }

abbrev directory : FileHeader
directory = record {
  id = 1;
  type = 1;
  owner_id = 0;
  last_modified = 0;
  last_accessed = 0;
  link_count = 1;
  num_bytes = 1500;
  num_fragments = 2;
  data_fragments = 16 ∷ 17 ∷ replicate 14 0;
  indirect_block = none;
}

abbrev clock : ℕ → ℕ → ℕ
clock i k = 10000 * i + 100 * k

abbrev table : List ℕ
table = replicate 1200 7

-- 1200 bytes into both fragments.
write_inside-ReadBack_example :
    ReadBack host
      (16 ∷ 17 ∷ [])
      table
      1200
      5
      directory
      blank
      (write_inside host clock 5 directory table 1200 0 blank)
write_inside-ReadBack_example =
    write_inside-ReadBack host clock 5 1200 directory table (16 ∷ 17 ∷ []) (replicate 14 0) blank
      refl (omega arith) (omega (arith, length-replicate {A = ℕ} 1200 7)) refl (omega arith)
      (omega arith) (omega arith, ((λ e. absurd (omega arith)), tt), (omega arith, tt, tt))
