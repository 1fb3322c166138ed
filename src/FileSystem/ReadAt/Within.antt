-- ===== src/FileSystem/ReadAt/Within.antt =====
-- A read that begins in the first fragment.
use everything.Base.{
  ℕ, ◌+◌, ◌-◌, ◌*◌, ◌/◌, ◌≤◌, ◌<◌, ◌≡◌, refl, sym, ap, ◌∙◌, inl, inr, true, false, Option, some,
  List, [], ◌∷◌, ◌++◌, length, length-append, length-drop, length-replicate, get_elem?, take,
  take_all, take-append, append_assoc, drop, drop-append, replicate, leb, ◌==◌, ◌||◌, arith,
  Bool-cases, if◌then◌else◌, subst,
}
use everything.Disk.{HostFile, Disk}
use everything.Disk.Sectors.{Holds, read_length-Holds}
use everything.FileSystem.Layout.{num_sectors}
use everything.FileSystem.Inode.{FileHeader, gather}
use everything.FileSystem.ReadAt.{store_bytes_at, read_fragments, read_part, read_at}

-- The bytes of a file, fragment by fragment.
abbrev pub contents : List (List ℕ) → List ℕ
contents [] = []
contents (block ∷ blocks) = block ++ contents blocks

store-append :
    (before tail block : List ℕ) (at : ℕ)
    → length before ≡ at
    → length block ≡ 1024
    → 1024 ≤ length tail
    → store_bytes_at (before ++ tail) at 1024 block ≡ some ((before ++ block) ++ drop 1024 tail)
unfolding store_bytes_at
store-append before tail block at b l h =
    let room : at + 1024 ≤ length (before ++ tail) = omega (arith, length-append before tail) in
    let fits : leb (at + 1024) (length (before ++ tail)) ≡ true = ground arith in
    rw
      (
        fits,
        take-append at before tail b,
        take_all 1024 block (omega arith),
        drop-append at 1024 before tail b,
      )
      (ap some (sym (append_assoc before block (drop 1024 tail))))

module _ {F : Type 0} (host : HostFile F) where
  -- From fragment `i` on, the file's fragments hold the blocks.
  abbrev pub InFragments : F → List ℕ → ℕ → List (List ℕ) → Type 0
  InFragments f fragments i [] = Unit {0}
  InFragments f fragments i (block ∷ blocks) =
      ((fragment : ℕ) × (get_elem? fragments i ≡ some fragment)
        × (fragment * 8 + 8 ≤ num_sectors)
        × (length block ≡ 1024)
        × Holds host f 8 0 (fragment * 8) block)
      × InFragments f fragments (i + 1) blocks

  pub record AllRead (i : ℕ) (before : List ℕ) (blocks : List (List ℕ)) (d : Disk F)
      (result : Option (List ℕ × Disk F)) : Type 0 where
    pub out : Disk F
    pub returns : result ≡ some (before ++ contents blocks, out)
    pub file_is : out.file ≡ d.file
    pub done : out.active ≡ false

  pub read_fragments-AllRead :
      (clock : ℕ → ℕ → ℕ) (i : ℕ) (fragments before tail : List ℕ) (blocks : List (List ℕ))
      (d : Disk F)
      → d.active ≡ false
      → length before ≡ i * 1024
      → length tail ≡ length blocks * 1024
      → InFragments d.file fragments i blocks
      → AllRead i before blocks d
          (read_fragments host clock (length blocks) i fragments (before ++ tail) d)
  unfolding read_fragments
  read_fragments-AllRead clock i fragments before [] [] d idle b t h = record {
    out = d;
    returns = refl;
    file_is = refl;
    done = idle;
  }
  read_fragments-AllRead clock i fragments before (x ∷ tail) [] d idle b t h = absurd (omega arith)
  read_fragments-AllRead clock i fragments before tail (block ∷ blocks) d idle b t
        ((fragment, at, on_disk, size, held), h) =
      let (d', reads, same, idle') =
        read_length-Holds host (clock i) (fragment * 8) block d idle on_disk size held in
      let m =
        read_fragments-AllRead clock (i + 1) fragments (before ++ block) (drop 1024 tail) blocks d'
          idle' (omega (arith, length-append before block)) (omega (arith, length-drop 1024 tail))
          (subst (λ (f : F). InFragments f fragments (i + 1) blocks) (sym same) h) in
      record {
        out = m.out;
        returns =
            rw
              (at, reads, store-append before tail block (i * 1024) b size (omega arith), m.returns)
              (ap (λ (xs : List ℕ). some (xs, m.out))
                (append_assoc before block (contents blocks)));
        file_is = m.file_is ∙ same;
        done = m.done;
      }

  -- What is read: `n` bytes from the position on, and the file and the disk are as before.
  pub record Answer (blocks : List (List ℕ)) (n position : ℕ) (d : Disk F)
      (result : Option (List ℕ × Disk F)) : Type 0 where
    pub out : Disk F
    pub returns : result ≡ some (take n (drop position (contents blocks)), out)
    pub file_is : out.file ≡ d.file
    pub done : out.active ≡ false

  module _ (clock : ℕ → ℕ → ℕ) (hdr : FileHeader) (indirect fragments : List ℕ)
      (blocks : List (List ℕ)) (position : ℕ) (d : Disk F) (idle : d.active ≡ false)
      (reads : gather hdr indirect ≡ some fragments) (held : InFragments d.file fragments 0 blocks)
      (within : position < 1024) where
    part-Answer :
        (n : ℕ)
        → (position + n - 1) / 1024 + 1 ≡ length blocks
        → Answer blocks n position d (read_part host clock hdr indirect n position d)
    unfolding read_part
    part-Answer n covers =
        let first : position / 1024 ≡ 0 = omega arith in
        let count : (position + n - 1) / 1024 - 0 + 1 ≡ length blocks = omega arith in
        let start : position - 0 * 1024 ≡ position = omega arith in
        let m =
          read_fragments-AllRead clock 0 fragments [] (replicate (length blocks * 1024) 0) blocks d
            idle refl (length-replicate (length blocks * 1024) 0) held in
        record {
          out = m.out;
          returns = rw (reads, first, count, m.returns) (rw start refl);
          file_is = m.file_is;
          done = m.done;
        }

    -- With no request in progress, a file whose fragments can be gathered and hold blocks of 1024
    -- bytes that reach to the end of the request, and a position in the first fragment and before
    -- the end of the file, ReadAt of one or more bytes succeeds and gives the bytes of the blocks
    -- from the position on, up to the number asked for or the end of the file; the file of the host
    -- is as before.
    pub read_at-Answer :
        (num_bytes n : ℕ)
        → 0 < num_bytes
        → position < hdr.num_bytes
        → n ≡ (
            if leb hdr.num_bytes (position + num_bytes)
            then hdr.num_bytes - position
            else num_bytes)
        → (position + n - 1) / 1024 + 1 ≡ length blocks
        → Answer blocks n position d (read_at host clock hdr indirect num_bytes position d)
    unfolding read_at
    read_at-Answer num_bytes n some_bytes inside asked covers =
        let not_nothing : (num_bytes == 0 || leb hdr.num_bytes position) ≡ false = ground arith in
        elim (Bool-cases (leb hdr.num_bytes (position + num_bytes))) [
          | inl e ↦
              let size : n ≡ hdr.num_bytes - position = asked ∙ rw e refl in
              rw (not_nothing, e, ← size) (part-Answer n covers)
          | inr e ↦
              let size : n ≡ num_bytes = asked ∙ rw e refl in
              rw (not_nothing, e)
                (subst
                  (λ (m : ℕ).
                    Answer blocks n position d (read_part host clock hdr indirect m position d))
                  size (part-Answer n covers))
        ]
