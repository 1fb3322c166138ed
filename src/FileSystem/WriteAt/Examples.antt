-- ===== src/FileSystem/WriteAt/Examples.antt =====
-- A write into both fragments of a file on a blank disk.
use everything.Base.{
  ℕ, ◌+◌, ◌*◌, ◌≡◌, none, some, List, [], ◌∷◌, replicate, length-replicate, false, refl, arith, inl,
  ◌<◌,
}
use everything.Disk.{Disk}
use everything.Disk.FunctionFile.{host, host-zeros}
use everything.MetaTable.{MetaTable, new_item, item_of, store}
use everything.MetaTable.Items.{item_of-item_at}
use everything.FileSystem.Layout.{format, first_sector, num_sectors}
use everything.FileSystem.Inode.{FileHeader, gather, read_ints}
use everything.FileSystem.Fragments.Written.{Held, Outside}
use everything.FileSystem.WriteAt.{write_at}
use everything.FileSystem.WriteAt.Overwrite.{overwrite}
use everything.FileSystem.WriteAt.InPlace.{Overwritten, write_at-Overwritten}

abbrev blank : Disk (ℕ → ℕ)
blank = record { file = λ i. 0; last_sector = 0; buffer_init = 0; active = false }

abbrev letter : FileHeader
letter = record {
  id = 1;
  type = 0;
  owner_id = 0;
  last_modified = 0;
  last_accessed = 0;
  link_count = 1;
  num_bytes = 1500;
  num_fragments = 2;
  data_fragments = 16 ∷ 17 ∷ replicate 14 0;
  indirect_block = none;
}

abbrev clock : ℕ → ℕ → ℕ → ℕ
clock stage i k = 100000 * stage + 10000 * i + 100 * k

letter-gathered : gather letter [] ≡ some (16 ∷ 17 ∷ [])
unfolding gather read_ints
letter-gathered = refl

abbrev zeros : List ℕ
zeros = replicate 2048 0

abbrev sevens : List ℕ
sevens = replicate 10 7

zeros-held : Held host blank.file (16 ∷ 17 ∷ []) zeros
zeros-held = (
  (
    host-zeros _ 128,
    (
      host-zeros _ 128,
      (
        host-zeros _ 128,
        (
          host-zeros _ 128,
          (host-zeros _ 128, (host-zeros _ 128, (host-zeros _ 128, (host-zeros _ 128, tt)))),
        ),
      ),
    ),
  ),
  (
    (
      host-zeros _ 128,
      (
        host-zeros _ 128,
        (
          host-zeros _ 128,
          (
            host-zeros _ 128,
            (host-zeros _ 128, (host-zeros _ 128, (host-zeros _ 128, (host-zeros _ 128, tt)))),
          ),
        ),
      ),
    ),
    tt,
  ),
)

abbrev users : MetaTable
users = record { table = new_item 1 ∷ new_item 2 ∷ [] }

letter-used : item_of users 1 ≡ some (0, new_item 1)
letter-used = item_of-item_at users 1 (refl, (refl, tt)) (omega arith) refl

-- The inode is in the sector 96, in front of the fragments.
sector_96 : first_sector format 1 ≡ 96
unfolding first_sector format
sector_96 = refl

sector-OnDisk : first_sector format 1 < num_sectors
sector-OnDisk = omega (arith, sector_96)

sector-Outside : Outside (128 * first_sector format 1 + 4) 128 (16 ∷ 17 ∷ [])
sector-Outside = (inl (omega (arith, sector_96)), (inl (omega (arith, sector_96)), tt))

write_at-Overwritten_example :
    Overwritten host
      (first_sector format 1)
      5
      1500
      10
      letter
      []
      []
      (store users 0 (record (new_item 1) { last_modified = 5 }))
      (16 ∷ 17 ∷ [])
      (overwrite sevens 10 zeros 1020)
      blank
      (write_at host clock format 5 letter [] [] users sevens 10 1020 blank)
write_at-Overwritten_example =
    write_at-Overwritten host clock format 5 letter [] (16 ∷ 17 ∷ []) zeros 17 [] users 0
      (new_item 1) blank refl letter-gathered refl
      (omega arith, ((λ e. absurd (omega arith)), tt), (omega arith, tt, tt)) refl zeros-held
      (omega (arith, length-replicate {A = ℕ} 2048 0)) refl sector-OnDisk sector-Outside letter-used
      sevens 10 1020 (omega arith) (omega (arith, length-replicate {A = ℕ} 2048 0))
