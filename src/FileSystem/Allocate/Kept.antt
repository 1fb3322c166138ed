-- ===== src/FileSystem/Allocate/Kept.antt =====
-- The fragments of a file, from Allocate into the inode and the indirect block and back.
use everything.Base.{
  ℕ, zero, suc, ◌-◌, ◌≤◌, ◌≡◌, refl, ap, inl, inr, true, some, List, [], ◌∷◌, arith, ltb, leb,
  length, drop, take, take_all, take-append-drop, length-drop, Bool-cases,
}
use everything.Bitmap.{Bitmap}
use everything.FileSystem.Inode.{
  FileHeader, read_ints, fill_ints, gather, set_data_fragments, set_fragments,
}
use everything.FileSystem.Allocate.{install}

read_ints-fill_ints :
    (n size : ℕ) (xs : List ℕ)
    → n ≤ size
    → n ≤ length xs
    → read_ints n (fill_ints size xs) ≡ some (take n xs)
unfolding read_ints fill_ints
read_ints-fill_ints zero size xs fits enough = refl
read_ints-fill_ints (suc n) zero xs fits enough = absurd (omega arith)
read_ints-fill_ints (suc n) (suc size) [] fits enough = absurd (omega arith)
read_ints-fill_ints (suc n) (suc size) (x ∷ xs) fits enough =
    rw (read_ints-fill_ints n size xs (omega arith) (omega arith)) refl

-- Up to 128 fragments that Allocate stores in an inode and its indirect block are the ones that are
-- gathered from them again, in order.
pub gather-install :
    (hdr : FileHeader) (indirect fragments : List ℕ) (new_length num_new : ℕ) (maps : List Bitmap)
    → length fragments ≡ num_new
    → num_new ≤ 128
    → let a = install hdr indirect new_length num_new fragments maps in
      gather a.header a.indirect ≡ some fragments
unfolding install gather set_data_fragments set_fragments
gather-install hdr indirect fragments new_length num_new maps e h =
    elim (Bool-cases (ltb 16 num_new)) [
      | inl many ↦
          let room : leb num_new 128 ≡ true = ground arith in
          let direct = read_ints-fill_ints 16 16 fragments (omega arith) (ground arith) in
          let behind =
            read_ints-fill_ints (num_new - 16) 128 (drop 16 fragments) (omega arith)
              (omega (arith, length-drop 16 fragments)) in
          let all =
            take_all (num_new - 16) (drop 16 fragments) (omega (arith, length-drop 16 fragments)) in
          rw (many, room, direct, behind, all) (ap some (take-append-drop 16 fragments))
      | inr few ↦
          rw (few, read_ints-fill_ints num_new 16 fragments (ground arith) (omega arith))
            (ap some (take_all num_new fragments (omega arith)))
    ]
