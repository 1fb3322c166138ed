-- ===== src/FileSystem/WriteDir/ReadBack.antt =====
-- ReadAt gives what WriteDir wrote.
use everything.Base.{
  ℕ, ◌+◌, ◌-◌, ◌*◌, ◌/◌, ◌≤◌, ◌<◌, ◌≡◌, refl, ap, ◌∙◌, true, false, Option, some, List, [], ◌++◌,
  length, length-append, length-drop, length-take, length-replicate, take, take-append, append_nil,
  drop, replicate, leb, ltb, arith, subst,
}
use everything.Bitmap.{div_round_up}
use everything.Disk.{HostFile, Disk}
use everything.FileSystem.Inode.{FileHeader, gather}
use everything.FileSystem.ReadAt.{read_at}
use everything.FileSystem.ReadAt.Within.{contents, read_at-Answer}
use everything.FileSystem.Fragments.{copy_bytes}
use everything.FileSystem.WriteDir.{write_inside}
use everything.FileSystem.Fragments.Written.{
  Spread, Outside, Listed, Listed-append, read_ints-append, chop, contents-chop, length-chop,
  Held-InFragments, write_fragments-AllWritten,
}

module _ {F : Type 0} (host : HostFile F) where
  -- After a WriteDir, a ReadAt from the start of the file gives the bytes; the file of the host is the
  -- same outside the fragments written.
  pub record ReadBack (fragments bytes : List ℕ) (num_bytes now : ℕ) (hdr : FileHeader) (d : Disk F)
      (result : Option (ℕ × FileHeader × Disk F)) : Type 0 where
    pub written : Disk F
    pub inode : FileHeader
    pub returns : result ≡ some (num_bytes, inode, written)
    pub is_inode : inode ≡ record hdr {
      num_bytes = num_bytes;
      num_fragments = length fragments;
      last_modified = now;
    }
    pub reads :
        (clock : ℕ → ℕ → ℕ) (indirect : List ℕ)
        → (after : Disk F) × (read_at host clock inode indirect num_bytes 0 written
            ≡ some (take num_bytes bytes, after))
          × (after.file ≡ written.file)
    pub others :
        (at len : ℕ)
        → Outside at len fragments
        → host.read written.file at len ≡ host.read d.file at len

  module _ (clock : ℕ → ℕ → ℕ) (now num_bytes : ℕ) (hdr : FileHeader)
      (bytes fragments unused : List ℕ) (d : Disk F) (idle : d.active ≡ false)
      (some_bytes : 0 < num_bytes) (enough : num_bytes ≤ length bytes)
      (table : hdr.data_fragments ≡ fragments ++ unused)
      (count : length fragments ≡ div_round_up num_bytes 1024) (few : length fragments ≤ 16)
      (spread : Spread fragments) where
    gathered :
        (indirect : List ℕ)
        → gather
            (record hdr {
              num_bytes = num_bytes;
              num_fragments = length fragments;
              last_modified = now;
            })
            indirect
          ≡ some fragments
    unfolding gather
    gathered indirect =
        let direct : ltb 16 (length fragments) ≡ false = ground arith in
        rw (direct, table) (read_ints-append fragments unused)

    -- On a file of the host that gives back what is written and keeps the rest, with no request in
    -- progress, an inode whose table begins with at most 16 fragments that differ and lie on the
    -- disk, as many as one or more bytes need, and a buffer with that many bytes: what WriteDir
    -- does from position 0 for a length of at most the file's, up to writing the inode back,
    -- succeeds, gives the inode with the new length, number of fragments and time, and changes the
    -- file of the host in those fragments only; a ReadAt of as many bytes from position 0 with that
    -- inode then gives the bytes, at whatever times the requests are made.
    pub write_inside-ReadBack :
        ReadBack fragments bytes num_bytes now hdr d
          (write_inside host clock now hdr bytes num_bytes 0 d)
    unfolding write_inside copy_bytes
    write_inside-ReadBack =
        let n : ℕ = length fragments in
        let blank : List ℕ = replicate (n * 1024) 0 in
        let buf : List ℕ = take num_bytes bytes ++ drop num_bytes blank in
        let fits : leb num_bytes (length bytes) ≡ true = ground arith in
        let room : num_bytes ≤ n * 1024 = ground arith in
        let blank_size : length blank ≡ n * 1024 = length-replicate (n * 1024) 0 in
        let in_buf : leb num_bytes (length blank) ≡ true = ground arith in
        let size : length buf ≡ n * 1024 = omega (
          arith,
          length-append (take num_bytes bytes) (drop num_bytes blank),
          length-take num_bytes bytes enough,
          length-drop num_bytes blank,
        ) in
        let listed = Listed-append [] fragments unused 0 refl in
        let m =
          write_fragments-AllWritten host clock 0 (fragments ++ unused) fragments buf d idle
            (omega arith) listed spread in
        let inode : FileHeader = record hdr {
          num_bytes = num_bytes;
          num_fragments = n;
          last_modified = now;
        } in
        let alone =
          subst (λ (xs : List ℕ). Listed xs 0 fragments) (append_nil fragments)
            (Listed-append [] fragments [] 0 refl) in
        let covers : (0 + num_bytes - 1) / 1024 + 1 ≡ length (chop n buf) =
          rw (length-chop n buf) (ground arith) in
        let front : take num_bytes (contents (chop n buf)) ≡ take num_bytes bytes =
          rw (contents-chop n buf size) (
            take-append num_bytes (take num_bytes bytes) (drop num_bytes blank)
              (length-take num_bytes bytes enough)) in
        let whole : 0 + num_bytes ≡ num_bytes = omega arith in
        record {
          written = m.out;
          inode = inode;
          returns = rw (whole, ← count, fits, in_buf, table, m.returns) refl;
          is_inode = refl;
          reads = λ clock' indirect.
              let a =
                read_at-Answer host clock' inode indirect fragments (chop n buf) 0 m.out m.done
                  (gathered indirect)
                  (Held-InFragments host m.out.file fragments 0 fragments buf size alone spread
                    m.held)
                  (omega arith) num_bytes num_bytes some_bytes some_bytes (ground arith) covers in
              (a.out, a.returns ∙ ap (λ (xs : List ℕ). some (xs, a.out)) front, a.file_is);
          others = m.others;
        }
