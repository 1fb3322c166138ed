-- ===== src/FileSystem/WriteAt/InPlace.antt =====
-- WriteAt in a file that has enough fragments overwrites a part of its bytes.
use everything.Base.{
  ℕ, ◌+◌, ◌-◌, ◌*◌, ◌/◌, ◌≤◌, ◌<◌, ◌≡◌, refl, ◌⊎◌, get_elem?, ◌∙◌, true, false, Option, some, List,
  length, length-drop, drop, ltb, if◌then◌else◌, arith, subst,
}
use everything.Bitmap.{Bitmap}
use everything.Disk.{HostFile, Disk, read_length}
use everything.MetaTable.{MetaTable, MetaTableItem, item_of, store}
use everything.MetaTable.Items.{set_last_modified-stored}
use everything.FileSystem.Layout.{SuperBlock, first_sector, num_sectors}
use everything.FileSystem.Inode.{FileHeader, gather}
use everything.FileSystem.Allocate.{Allocation}
use everything.FileSystem.Allocate.Inside.{allocate-keeps, fragments_enough}
use everything.FileSystem.Fragments.Written.{Spread, Outside, Held}
use everything.FileSystem.WriteBack.{inode_ints, ints_bytes}
use everything.FileSystem.WriteBack.Stored.{write_back-Written, Held-kept}
use everything.FileSystem.WriteAt.{write_part, write_at}
use everything.FileSystem.WriteAt.Overwrite.{
  Spread-drop, Outside-drop, overwrite, overwrite-drop, below, move_fragments-same, Held-drop,
  Held-joined, TailWritten, tail-Written,
}

gather-same :
    (hdr : FileHeader) (indirect : List ℕ) (n : ℕ)
    → gather (record hdr { num_bytes = n }) indirect ≡ gather hdr indirect
unfolding gather
gather-same hdr indirect n = refl

shorter : (a b k : ℕ) → a ≤ k → b ≤ k → (if ltb a b then b else a) ≤ k
shorter a b k h h' = ground arith

module _ {F : Type 0} (host : HostFile F) where
  -- The disk after a write: the fragments hold the new bytes, and all else is as before.
  pub record PartWritten (old whole : List ℕ) (d : Disk F) (result : Option (Disk F)) : Type 0 where
    pub out : Disk F
    pub returns : result ≡ some out
    pub done : out.active ≡ false
    pub held : Held host out.file old whole
    pub others :
        (at len : ℕ) → Outside at len old → host.read out.file at len ≡ host.read d.file at len

  module _ (clock : ℕ → ℕ → ℕ → ℕ) (old whole bytes : List ℕ) (num_bytes position : ℕ) (d : Disk F)
      (idle : d.active ≡ false) (spread : Spread old) (size : length whole ≡ length old * 1024)
      (held : Held host d.file old whole) (enough : num_bytes ≤ length bytes)
      (fits : position + num_bytes ≤ length whole) where
    write_part-Written :
        (file_length : ℕ)
        → PartWritten old
            (overwrite bytes num_bytes whole position)
            d
            (write_part host clock file_length old old bytes num_bytes position d)
    unfolding write_part
    write_part-Written file_length =
        let first : ℕ = position / 1024 in
        let rest : List ℕ = drop first old in
        let tail : List ℕ = drop (first * 1024) whole in
        let before : first * 1024 ≤ position = omega arith in
        let inside : first ≤ length old = omega arith in
        let t =
          subst
            (λ (k : ℕ).
              TailWritten host clock k rest tail bytes num_bytes (position - first * 1024) d)
            (length-drop first old)
            (tail-Written host clock rest tail bytes num_bytes (position - first * 1024) d idle
              (Spread-drop first old spread)
              (omega (arith, length-drop (first * 1024) whole, length-drop first old))
              (Held-drop host d.file first old whole held) enough
              (omega (arith, length-drop (first * 1024) whole))) in
        let joined =
          Held-joined host d.file t.out.file first old whole
            (overwrite bytes num_bytes tail (position - first * 1024)) inside size t.others spread
            held t.held in
        let rounds : (if ltb 0 file_length then first else 0) ≤ first = ground arith in
        let moved =
          move_fragments-same host clock (if ltb 0 file_length then first else 0) 0 old d
            (omega arith) in
        record {
          out = t.out;
          returns = rw (moved, below first (length old) inside, t.reads, t.copies) t.writes;
          done = t.done;
          held =
              subst (λ (xs : List ℕ). Held host t.out.file old xs)
                (overwrite-drop bytes num_bytes whole position (first * 1024) before) joined;
          others = λ at len h. t.others at len (Outside-drop first at len old h);
        }

  -- What WriteAt answers, and what it leaves: on the disk, the bytes in the fragments and the inode in
  -- its sector.
  pub record Overwritten (sector now new_length num_bytes : ℕ) (hdr : FileHeader)
      (indirect : List ℕ) (maps : List Bitmap) (meta_table : MetaTable) (old whole : List ℕ)
      (d : Disk F) (result : Option (ℕ × Allocation × MetaTable × Disk F)) : Type 0 where
    pub inode : FileHeader
    pub is_inode : inode ≡ record hdr { num_bytes = new_length; last_modified = now }
    pub out : Disk F
    pub returns :
        result
        ≡ some (
          num_bytes,
          record { success = true; header = inode; indirect = indirect; maps = maps },
          meta_table,
          out,
        )
    pub done : out.active ≡ false
    pub held : Held host out.file old whole
    pub in_sector :
        (clock : ℕ → ℕ)
        → (after : Disk F) × (read_length host clock sector 100 out
            ≡ some (ints_bytes (inode_ints inode), after))
          × (after.file ≡ out.file)
    pub others :
        (at len : ℕ)
        → Outside at len old
        → (at + len ≤ 128 * sector + 4) ⊎ (128 * sector + 132 ≤ at)
        → host.read out.file at len ≡ host.read d.file at len

  module _ (clock : ℕ → ℕ → ℕ → ℕ) (super_block : SuperBlock) (now : ℕ) (hdr : FileHeader)
      (indirect old whole : List ℕ) (last_fragment : ℕ) (maps : List Bitmap)
      (meta_table : MetaTable) (index : ℕ) (item : MetaTableItem) (d : Disk F)
      (idle : d.active ≡ false) (reads : gather hdr indirect ≡ some old)
      (last : get_elem? old (length old - 1) ≡ some last_fragment) (spread : Spread old)
      (size : length whole ≡ length old * 1024) (held : Held host d.file old whole)
      (inside : hdr.num_bytes ≤ length whole) (table : length hdr.data_fragments ≡ 16)
      (on_disk : first_sector super_block hdr.id < num_sectors)
      (apart : Outside (128 * first_sector super_block hdr.id + 4) 128 old)
      (in_use : item_of meta_table hdr.id ≡ some (index, item)) where
    -- On a file of the host that gives back what is written and keeps the rest, with no request in
    -- progress: a file that has a fragment, whose fragments can be gathered, differ, lie on the
    -- disk and hold a sequence of bytes that is at least as long as the file; an inode with a table
    -- of 16 fragments, whose sector lies on the disk and in no fragment of the file, and that has
    -- an item in the table of inode usage; a buffer with the bytes to be written and a request that
    -- ends within the fragments. WriteAt answers with the number of bytes; the fragments then hold
    -- the sequence with the bytes written from the position on and the others as before; the inode
    -- has the time and the length of the file or the end of the request, whichever is more, and a
    -- ReadLength of 100 bytes at its sector gives its ints; its item in the table has the time; the
    -- fragments of the file and the free maps are as before, and so is the file of the host outside
    -- the fragments and that sector.
    pub write_at-Overwritten :
        (bytes : List ℕ) (num_bytes position : ℕ)
        → num_bytes ≤ length bytes
        → position + num_bytes ≤ length whole
        → Overwritten
            (first_sector super_block hdr.id)
            now
            (if ltb hdr.num_bytes (position + num_bytes)
              then position + num_bytes
              else hdr.num_bytes)
            num_bytes
            hdr
            indirect
            maps
            (store meta_table index (record item { last_modified = now }))
            old
            (overwrite bytes num_bytes whole position)
            d
            (write_at host clock super_block now hdr indirect maps meta_table bytes num_bytes
              position d)
    unfolding write_at
    write_at-Overwritten bytes num_bytes position enough fits =
        let new_length : ℕ =
          if ltb hdr.num_bytes (position + num_bytes)
          then position + num_bytes
          else hdr.num_bytes in
        let inode : FileHeader = record hdr { num_bytes = new_length; last_modified = now } in
        let sector : ℕ = first_sector super_block hdr.id in
        let short : new_length ≤ length old * 1024 =
          shorter hdr.num_bytes (position + num_bytes) (length old * 1024) (omega arith)
            (omega arith) in
        let kept =
          allocate-keeps super_block.num_fragment_cylinder hdr indirect old maps last_fragment
            new_length reads last (fragments_enough new_length (length old) short) in
        let again = gather-same hdr indirect new_length ∙ reads in
        let w =
          write_part-Written clock old whole bytes num_bytes position d idle spread size held enough
            fits hdr.num_bytes in
        let stamped = set_last_modified-stored meta_table hdr.id now index item in_use in
        let b = write_back-Written host super_block (clock 4 0) inode w.out w.done table on_disk in
        record {
          inode = inode;
          is_inode = refl;
          out = b.out;
          returns = rw (reads, kept) (rw (again, w.returns, b.returns, stamped) refl);
          done = b.done;
          held =
              Held-kept host w.out.file b.out.file sector old
                (overwrite bytes num_bytes whole position) b.others apart w.held;
          in_sector = b.inode;
          others = λ at len h o. b.others at len o ∙ w.others at len h;
        }
