-- ===== src/MetaTable/Examples.antt =====
-- Runs of filesys/metatable.cc on a table of three inodes.
use everything.Base.{refl, false, [], ◌∷◌, arith}
use everything.MetaTable.{MetaTable, MetaTableItem, new_item, check_finish, close_file}
use everything.MetaTable.Items.{IsValid}
use everything.MetaTable.Sharing.{
  Refines, view, share_close, check_finish-Refines, close_file-Refines, LastClose,
  close_times-LastClose,
}

-- Inode 2 has three users and waits for its deletion.
abbrev doomed : MetaTableItem
doomed = record { inode = 2; usage = 3; last_modified = 0; finish = 1 }

abbrev three : MetaTable
three = record { table = new_item 1 ∷ doomed ∷ new_item 3 ∷ [] }

three-IsValid : IsValid three
three-IsValid = (refl, (refl, (refl, tt)))

check_finish-Refines_example : Refines three 2 (check_finish three 2) (false, view doomed)
check_finish-Refines_example = check_finish-Refines three 2 doomed three-IsValid (omega arith) refl

close_file-Refines_example : Refines three 2 (close_file three 2) (share_close (view doomed))
close_file-Refines_example = close_file-Refines three 2 doomed three-IsValid (omega arith) refl

close_times-LastClose_example : LastClose 2 three 2
close_times-LastClose_example =
    close_times-LastClose 2 three 2 doomed three-IsValid (omega arith) refl refl
