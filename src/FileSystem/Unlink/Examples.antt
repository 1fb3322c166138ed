-- ===== src/FileSystem/Unlink/Examples.antt =====
-- Unlink and the inode search of Create on a small disk.
use everything.Base.{◌≡◌, refl, inl, none, [], ◌∷◌, arith}
use everything.FileSystem.TwoGroups.{two_groups, small_file, two_groups-Ready, small_file-reads}
use everything.FileSystem.Unlink.{FreeMaps, unlink, find_inode}
use everything.FileSystem.Unlink.Freed.{Indirect, Unlinked, unlink-Unlinked, unlink-last}
use everything.FileSystem.Unlink.Chosen.{Choice, find_inode-Choice}

abbrev maps : FreeMaps
maps = record { fragments = two_groups; inodes = two_groups }

small_file-Indirect : Indirect 8 (omega arith) small_file []
unfolding Indirect
small_file-Indirect = inl (omega arith, refl)

unlink-Unlinked_example :
    Unlinked 8 8 (omega arith) (omega arith) maps 1 (0 ∷ 1 ∷ []) (unlink 8 8 1 small_file [] maps)
unlink-Unlinked_example =
    unlink-Unlinked 8 8 (omega arith) (omega arith) small_file [] (0 ∷ 1 ∷ []) [] 1 maps
      two_groups-Ready two_groups-Ready small_file-reads (omega arith, (omega arith, tt))
      small_file-Indirect refl (λ e. omega arith) (omega arith)

-- Inode 8, the last of the first group.
unlink-last_example : unlink 8 8 8 (record small_file { id = 8 }) [] maps ≡ none
unlink-last_example = unlink-last 8 8 8 (record small_file { id = 8 }) [] maps refl refl

find_inode-Choice_example : Choice 8 (omega arith) two_groups (find_inode 2 0 two_groups)
find_inode-Choice_example = find_inode-Choice 8 (omega arith) two_groups two_groups-Ready
