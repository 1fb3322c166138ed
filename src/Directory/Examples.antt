-- ===== src/Directory/Examples.antt =====
-- Runs of filesys/directory.cc on a directory of two names.
use everything.Base.{◌≡◌, refl, none, some, [], ◌∷◌, arith, replicate}
use everything.Directory.{Directory, find_index, find_index_from, same_upto}
use everything.Directory.Update.{IsValid, Added, add-Added}
use everything.Directory.Removal.{Removed, remove-Removed}

-- "a" is inode 7 and "bc" is inode 9.
abbrev two_names : Directory
two_names = record {
  table =
      record { inode_number = 7; name = 97 ∷ [] }
      ∷ record { inode_number = 9; name = 98 ∷ 99 ∷ [] }
      ∷ [];
}

two_names-IsValid : IsValid two_names
unfolding same_upto
two_names-IsValid = record { fit = (omega arith, (omega arith, tt)); distinct = (refl, (refl, tt)) }

bc_found : find_index two_names (98 ∷ 99 ∷ []) ≡ some 1
unfolding find_index find_index_from same_upto
bc_found = refl

d_missing : find_index two_names (100 ∷ []) ≡ none
unfolding find_index find_index_from same_upto
d_missing = refl

long_missing : find_index two_names (replicate 32 120) ≡ none
unfolding find_index find_index_from same_upto
long_missing = refl

add-Added_example : Added two_names (100 ∷ []) 11
add-Added_example = add-Added two_names (100 ∷ []) 11 two_names-IsValid (omega arith) d_missing

remove-Removed_example : Removed two_names (98 ∷ 99 ∷ [])
remove-Removed_example = remove-Removed two_names (98 ∷ 99 ∷ []) 1 two_names-IsValid bc_found
