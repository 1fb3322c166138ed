-- ===== src/Disk/Sectors.antt =====
-- ReadLength gives what WriteLength wrote.
use everything.Base.{
  ℕ, zero, suc, ◌+◌, ◌*◌, ◌≤◌, ◌<◌, ◌≡◌, refl, sym, ap, ◌∙◌, ◌⊎◌, inl, inr, true, false, Option,
  none, some, List, [], ◌∷◌, length, length-take, length-drop, take-append-drop, take_all, drop,
  take, ltb, arith, subst, Bool-cases,
}
use everything.Bitmap.{div_round_up}
use everything.FileSystem.Layout.{num_sectors}
use everything.Disk.{
  HostFile, Disk, read_request, write_request, call_back, update_last, read_sector, write_sector,
  read_sectors, write_sectors, padded, read_length, write_length, read_requests, write_requests,
}

length-padded : (n : ℕ) (xs : List ℕ) → length (padded n xs) ≡ n
unfolding padded
length-padded zero xs = refl
length-padded (suc n) [] = ap suc (length-padded n [])
length-padded (suc n) (x ∷ xs) = ap suc (length-padded n xs)

take-padded :
    (k n : ℕ) (xs : List ℕ) → k ≤ n → k ≤ length xs → take k (padded n (take k xs)) ≡ take k xs
unfolding padded
take-padded zero n xs h l = refl
take-padded (suc k) zero xs h l = absurd (omega arith)
take-padded (suc k) (suc n) [] h l = absurd (omega arith)
take-padded (suc k) (suc n) (x ∷ xs) h l =
    ap (◌∷◌ x) (take-padded k n xs (omega arith) (omega arith))

round_up : (len : ℕ) → len ≤ div_round_up len 128 * 128
round_up len = ground arith

module _ {F : Type 0} (host : HostFile F) where
  -- The offset of a sector in the file.
  abbrev pub offset : ℕ → ℕ
  offset sector = 128 * sector + 4

  -- The `left` sectors from `sector + i` on hold the bytes of the buffer.
  abbrev pub Holds : F → ℕ → ℕ → ℕ → List ℕ → Type 0
  Holds f zero i sector buf = Unit {0}
  Holds f (suc left) i sector buf =
      (host.read f (offset (sector + i)) 128 ≡ take 128 buf)
      × Holds f left (i + 1) sector (drop 128 buf)

  record SectorWritten (sector : ℕ) (xs : List ℕ) (d : Disk F) (result : Option (Disk F))
      : Type 0 where
    out : Disk F
    returns : result ≡ some out
    file_is : out.file ≡ host.write d.file (offset sector) xs
    done : out.active ≡ false

  write_sector-Written :
      (now sector : ℕ) (xs : List ℕ) (d : Disk F)
      → d.active ≡ false
      → sector < num_sectors
      → SectorWritten sector xs d (write_sector host now sector xs d)
  unfolding write_sector write_request call_back update_last
  write_sector-Written now sector xs d idle h =
      let on_disk : ltb sector num_sectors ≡ true = ground arith in
      record {
        out = call_back (
            update_last now sector
              (record d { file = host.write d.file (offset sector) xs; active = true }));
        returns = rw (idle, on_disk) refl;
        file_is = refl;
        done = refl;
      }

  record SectorRead (sector : ℕ) (d : Disk F) (result : Option (List ℕ × Disk F)) : Type 0 where
    out : Disk F
    returns : result ≡ some (host.read d.file (offset sector) 128, out)
    file_is : out.file ≡ d.file
    done : out.active ≡ false

  read_sector-Read :
      (now sector : ℕ) (d : Disk F)
      → d.active ≡ false
      → sector < num_sectors
      → SectorRead sector d (read_sector host now sector d)
  unfolding read_sector read_request call_back update_last
  read_sector-Read now sector d idle h =
      let on_disk : ltb sector num_sectors ≡ true = ground arith in
      record {
        out = call_back (update_last now sector (record d { active = true }));
        returns = rw (idle, on_disk) refl;
        file_is = refl;
        done = refl;
      }

  -- What the loop of WriteLength promises.
  record Written (left i sector : ℕ) (buf : List ℕ) (d : Disk F) (result : Option (Disk F))
      : Type 0 where
    out : Disk F
    returns : result ≡ some out
    done : out.active ≡ false
    holds : Holds out.file left i sector buf
    others :
        (at len : ℕ)
        → (at + len ≤ offset (sector + i)) ⊎ (offset (sector + i + left) ≤ at)
        → host.read out.file at len ≡ host.read d.file at len

  write_sectors-Written :
      (clock : ℕ → ℕ) (left i sector : ℕ) (buf : List ℕ) (d : Disk F)
      → d.active ≡ false
      → sector + i + left ≤ num_sectors
      → length buf ≡ left * 128
      → Written left i sector buf d (write_sectors host clock left i sector buf d)
  unfolding write_sectors
  write_sectors-Written clock zero i sector buf d idle fits size = record {
    out = d;
    returns = refl;
    done = idle;
    holds = tt;
    others = λ at len h. refl;
  }
  write_sectors-Written clock (suc left) i sector buf d idle fits size =
      let w = write_sector-Written (clock i) (sector + i) (take 128 buf) d idle (omega arith) in
      let m =
        write_sectors-Written clock left (i + 1) sector (drop 128 buf) w.out w.done (omega arith)
          (omega (arith, length-drop 128 buf)) in
      let full = length-take 128 buf (omega arith) in
      record {
        out = m.out;
        returns = rw w.returns m.returns;
        done = m.done;
        holds = (
          m.others (offset (sector + i)) 128 (inl (omega arith))
              ∙ ap (λ (f : F). host.read f (offset (sector + i)) 128) w.file_is
              ∙ (rw full at (host.read-write d.file (offset (sector + i)) (take 128 buf))),
          m.holds,
        );
        others = λ at len h.
            m.others at len (elim h [ inl e ↦ inl (omega arith) | inr e ↦ inr (omega arith) ])
            ∙ rw w.file_is (
                host.read-write_other d.file (offset (sector + i)) (take 128 buf) at len
                  (elim h [ inl e ↦ inl e | inr e ↦ inr (omega arith) ]));
      }

  -- What the loop of ReadLength promises.
  record Read (left i sector : ℕ) (buf : List ℕ) (d : Disk F) (result : Option (List ℕ × Disk F))
      : Type 0 where
    out : Disk F
    returns : result ≡ some (buf, out)
    file_is : out.file ≡ d.file
    done : out.active ≡ false

  read_sectors-Read :
      (clock : ℕ → ℕ) (left i sector : ℕ) (buf : List ℕ) (d : Disk F)
      → d.active ≡ false
      → sector + i + left ≤ num_sectors
      → length buf ≡ left * 128
      → Holds d.file left i sector buf
      → Read left i sector buf d (read_sectors host clock left i sector d)
  unfolding read_sectors
  read_sectors-Read clock zero i sector [] d idle fits size h = record {
    out = d;
    returns = refl;
    file_is = refl;
    done = idle;
  }
  read_sectors-Read clock zero i sector (x ∷ buf) d idle fits size h = absurd (omega arith)
  read_sectors-Read clock (suc left) i sector buf d idle fits size (h, hs) =
      let r = read_sector-Read (clock i) (sector + i) d idle (omega arith) in
      let m =
        read_sectors-Read clock left (i + 1) sector (drop 128 buf) r.out r.done (omega arith)
          (omega (arith, length-drop 128 buf))
          (subst (λ (f : F). Holds f left (i + 1) sector (drop 128 buf)) (sym r.file_is) hs) in
      record {
        out = m.out;
        returns =
            rw (r.returns, m.returns, h)
              (ap (λ (t : List ℕ). some (t, m.out)) (take-append-drop 128 buf));
        file_is = m.file_is ∙ r.file_is;
        done = m.done;
      }

  -- After a WriteLength, a ReadLength of the same place gives the bytes; the file is the same elsewhere.
  pub record RoundTrip (clock : ℕ → ℕ) (sector len : ℕ) (bytes : List ℕ) (d : Disk F) : Type 0 where
    pub written : Disk F
    pub writes : write_length host clock sector len bytes d ≡ some written
    pub done : written.active ≡ false
    pub reads :
        (clock' : ℕ → ℕ)
        → (after : Disk F) × (read_length host clock' sector len written
            ≡ some (take len bytes, after))
          × (after.file ≡ written.file)
    pub others :
        (at len' : ℕ)
        → (at + len' ≤ offset sector) ⊎ (offset (sector + div_round_up len 128) ≤ at)
        → host.read written.file at len' ≡ host.read d.file at len'

  -- On a file of the host that gives back what is written and keeps the rest, with no request in
  -- progress and all sectors on the disk, WriteLength of the first bytes of a long enough buffer
  -- succeeds, and a ReadLength of as many bytes at the same sector gives them back, at whatever
  -- times the requests are made; the file is unchanged outside the sectors written.
  pub read_length-write_length :
      (clock : ℕ → ℕ) (sector len : ℕ) (bytes : List ℕ) (d : Disk F)
      → d.active ≡ false
      → len ≤ length bytes
      → sector + div_round_up len 128 ≤ num_sectors
      → RoundTrip clock sector len bytes d
  unfolding write_length read_length
  read_length-write_length clock sector len bytes d idle enough fits =
      let n : ℕ = div_round_up len 128 in
      let buf : List ℕ = padded (n * 128) (take len bytes) in
      let w =
        write_sectors-Written clock n 0 sector buf d idle (omega arith)
          (length-padded (n * 128) (take len bytes)) in
      record {
        written = w.out;
        writes = w.returns;
        done = w.done;
        reads = λ clock'.
            let r =
              read_sectors-Read clock' n 0 sector buf w.out w.done (omega arith)
                (length-padded (n * 128) (take len bytes)) w.holds in
            (
              r.out,
              rw r.returns (
                  ap (λ (t : List ℕ). some (t, r.out))
                    (take-padded len (n * 128) bytes (round_up len) enough)),
              r.file_is,
            );
        others = λ at len' h.
            w.others at len' (elim h [ inl e ↦ inl (omega arith) | inr e ↦ inr (omega arith) ]);
      }

  -- Reading or writing two or more sectors by ReadBlock, ReadFragment, WriteBlock or WriteFragment
  -- fails an ASSERT of the disk, whatever its state.
  pub read_requests-write_requests-fail :
      (now left sector : ℕ) (bytes : List ℕ) (d : Disk F)
      → (read_requests host now (suc (suc left)) sector bytes d ≡ none)
        × (write_requests host now (suc (suc left)) sector bytes d ≡ none)
  unfolding read_requests write_requests read_request write_request update_last
  read_requests-write_requests-fail now left sector bytes d = elim (Bool-cases d.active) [
    | inl busy ↦ (rw busy refl, rw busy refl)
    | inr idle ↦ elim (Bool-cases (ltb sector num_sectors)) [
      | inl on_disk ↦ (rw (idle, on_disk) refl, rw (idle, on_disk) refl)
      | inr off ↦ (rw (idle, off) refl, rw (idle, off) refl)
    ]
  ]

  -- A read of eight sectors, a fragment, that hold some bytes.
  pub read_length-Holds :
      (clock : ℕ → ℕ) (sector : ℕ) (buf : List ℕ) (d : Disk F)
      → d.active ≡ false
      → sector + 8 ≤ num_sectors
      → length buf ≡ 1024
      → Holds d.file 8 0 sector buf
      → (after : Disk F) × (read_length host clock sector 1024 d ≡ some (buf, after))
        × (after.file ≡ d.file)
        × (after.active ≡ false)
  unfolding read_length
  read_length-Holds clock sector buf d idle fits size h =
      let r = read_sectors-Read clock 8 0 sector buf d idle (omega arith) size h in
      (
        r.out,
        rw r.returns (ap (λ (t : List ℕ). some (t, r.out)) (take_all 1024 buf (omega arith))),
        r.file_is,
        r.done,
      )

  -- What a write of a fragment promises.
  pub record FragmentWritten (sector : ℕ) (block : List ℕ) (d : Disk F) (result : Option (Disk F))
      : Type 0 where
    pub out : Disk F
    pub returns : result ≡ some out
    pub done : out.active ≡ false
    pub holds : Holds out.file 8 0 sector block
    pub others :
        (at len : ℕ)
        → (at + len ≤ offset sector) ⊎ (offset (sector + 8) ≤ at)
        → host.read out.file at len ≡ host.read d.file at len

  -- A write of eight sectors, a fragment, from a buffer that has as many bytes.
  pub write_length-FragmentWritten :
      (clock : ℕ → ℕ) (sector : ℕ) (bytes : List ℕ) (d : Disk F)
      → d.active ≡ false
      → sector + 8 ≤ num_sectors
      → 1024 ≤ length bytes
      → FragmentWritten sector (take 1024 bytes) d (write_length host clock sector 1024 bytes d)
  unfolding write_length
  write_length-FragmentWritten clock sector bytes d idle fits enough =
      let buf : List ℕ = padded 1024 (take 1024 bytes) in
      let size : length buf ≡ 1024 = length-padded 1024 (take 1024 bytes) in
      let w = write_sectors-Written clock 8 0 sector buf d idle (omega arith) size in
      let whole : buf ≡ take 1024 bytes =
        sym (take_all 1024 buf (omega arith)) ∙ take-padded 1024 1024 bytes (omega arith) enough in
      record {
        out = w.out;
        returns = w.returns;
        done = w.done;
        holds = subst (λ (xs : List ℕ). Holds w.out.file 8 0 sector xs) whole w.holds;
        others = λ at len h.
            w.others at len (elim h [ inl e ↦ inl (omega arith) | inr e ↦ inr (omega arith) ]);
      }

  -- A change of the file elsewhere leaves sectors as they are.
  pub Holds-kept :
      (f f' : F) (left i sector : ℕ) (buf : List ℕ)
      → ((j : ℕ)
          → i ≤ j
          → j < i + left
          → host.read f' (offset (sector + j)) 128 ≡ host.read f (offset (sector + j)) 128)
      → Holds f left i sector buf
      → Holds f' left i sector buf
  Holds-kept f f' zero i sector buf same h = tt
  Holds-kept f f' (suc left) i sector buf same (h, hs) = (
    same i (omega arith) (omega arith) ∙ h,
    Holds-kept f f' left (i + 1) sector (drop 128 buf)
        (λ j low high. same j (omega arith) (omega arith)) hs,
  )
