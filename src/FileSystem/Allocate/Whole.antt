-- ===== src/FileSystem/Allocate/Whole.antt =====
-- Allocate as a whole: the fragment for an indirect block, and what the call leaves in each case.
use everything.Base.{
  set-same, ℕ, zero, suc, ◌+◌, ◌-◌, ◌*◌, ◌≤◌, ◌<◌, ◌≡◌, refl, ◌∙◌, ◌⊎◌, inl, inr, true, false,
  Option, none, some, List, [], ◌∷◌, arith, ◌&&◌, ltb, leb, length, get_elem?, set, Bool-cases,
}
use everything.Bitmap.{Bitmap, find_and_set}
use everything.Bitmap.Search.{Searched, find_and_set-Searched}
use everything.FileSystem.Layout.{cylinder_groups}
use everything.FileSystem.Inode.{FileHeader, gather}
use everything.FileSystem.Allocate.{find_indirect, fragments_for, resize, allocate, Allocation}
use everything.FileSystem.Allocate.Claims.{
  used, Claims, Ready, get-map, set-Ready, used-set, used-at,
}
use everything.FileSystem.Allocate.Inside.{no_block, not_fewer, gather-count, resize-keeps}
use everything.FileSystem.Allocate.Growth.{Together, Succeeded, grow-Succeeded}

fewer : (a b : ℕ) → ltb a b ≡ true → a < b
fewer a b e = ground arith

module _ (n : ℕ) (big : 4 < n) where
  -- A free fragment was taken for the indirect block: position `id` of group `group`.
  pub record Reserved (maps : List Bitmap) (id : ℕ) (out : List Bitmap) : Type 0 where
    pub group : ℕ
    pub in_group : group < cylinder_groups
    pub in_range : id < n
    pub ready : Ready n out
    pub claims : Claims (used n maps) ((id + group * n) ∷ []) (used n out)

  Block : List Bitmap → Option (Option ℕ × List Bitmap) → Type 0
  Block maps result =
      ((id : ℕ) × (out : List Bitmap) × (result ≡ some (some id, out)) × Reserved maps id out)
      ⊎ (result ≡ some (none, maps))

  find_indirect-Block :
      (rounds i : ℕ) (maps : List Bitmap)
      → Ready n maps
      → i + rounds ≡ 2
      → Block maps (find_indirect rounds i maps)
  unfolding find_indirect Block
  find_indirect-Block zero i maps r e = inr refl
  find_indirect-Block (suc rounds) i maps r e =
      let (b, at) = get-map n (omega arith) maps i r (omega arith) in
      go b at (find_and_set-Searched b (r.valid i b at))
        (find_indirect-Block rounds (i + 1) maps r (omega arith))
    where
      go :
          (b : Bitmap)
          → get_elem? maps i ≡ some b
          → Searched b (find_and_set b)
          → Block maps (find_indirect rounds (i + 1) maps)
          → Block maps (find_indirect (suc rounds) i maps)
      go b at (inl s) later =
          let small : s.at < n = omega (arith, s.in_range, r.bits i b at) in
          inl (
            s.at,
            set maps i s.out,
            rw (at, s.returns) refl,
            record {
              group = i;
              in_group = omega arith;
              in_range = small;
              ready = set-Ready n (omega arith) maps i b s.out r at s.valid s.same_size;
              claims = (
                used-at n (omega arith) maps i s.at b at small ∙ s.was_clear,
                used-set n (omega arith) maps s.at i b s.out true r small at s.valid s.same_size
                    s.bits,
              );
            },
          )
      go b at (inr f) later = rw (at, f.returns, set-same maps i at) later

  -- What the call leaves: the file keeps its fragments and gets the new length; or nothing is there to
  -- give, and neither the maps nor the file's fragments change; or the file grows, after a fragment for
  -- the indirect block was reserved if the inode had none and needs one.
  pub record Keeps (hdr : FileHeader) (indirect old : List ℕ) (maps : List Bitmap) (new_length : ℕ)
      (a : Allocation) : Type 0 where
    pub enough : fragments_for new_length ≤ length old
    pub same : a ≡ record {
      success = true;
      header = record hdr { num_bytes = new_length };
      indirect = indirect;
      maps = maps;
    }

  pub record Fails (hdr : FileHeader) (indirect old : List ℕ) (maps : List Bitmap) (a : Allocation)
      : Type 0 where
    pub failed : a.success ≡ false
    pub same_maps : a.maps ≡ maps
    pub same_bytes : a.header.num_bytes ≡ hdr.num_bytes
    pub held : gather a.header a.indirect ≡ some old

  pub record Grows (hdr : FileHeader) (old : List ℕ) (last_fragment : ℕ) (maps : List Bitmap)
      (new_length : ℕ) (a : Allocation) : Type 0 where
    pub block : Option ℕ
    pub start : List Bitmap
    pub reserved :
        ((block ≡ hdr.indirect_block) × (start ≡ maps))
        ⊎ ((id : ℕ) × (block ≡ some id) × Reserved maps id start)
    pub grown :
        Succeeded n big
          (record hdr { indirect_block = block })
          old
          last_fragment
          new_length
          (fragments_for new_length)
          start
          a

  pub Outcome : FileHeader → List ℕ → List ℕ → ℕ → List Bitmap → ℕ → Allocation → Type 0
  Outcome hdr indirect old last_fragment maps new_length a =
      Keeps hdr indirect old maps new_length a
      ⊎ (Fails hdr indirect old maps a ⊎ Grows hdr old last_fragment maps new_length a)

  resize-grows :
      (hdr : FileHeader) (indirect old : List ℕ) (on_disk maps : List Bitmap)
      (last_fragment new_length : ℕ)
      → get_elem? old (length old - 1) ≡ some last_fragment
      → Ready n maps
      → Together n big old last_fragment
      → length old < fragments_for new_length
      → fragments_for new_length ≤ 128
      → (a : Allocation) × (resize n hdr indirect on_disk old new_length maps ≡ some a)
        × ((a ≡ record { success = false; header = hdr; indirect = indirect; maps = on_disk })
            ⊎ Succeeded n big hdr old last_fragment new_length (fragments_for new_length) maps a)
  unfolding resize
  resize-grows hdr indirect old on_disk maps last_fragment new_length last r together grows fits =
      let more : ltb (length old) (fragments_for new_length) ≡ true = ground arith in
      rw (last, more)
        (grow-Succeeded n big hdr indirect on_disk old last_fragment new_length
          (fragments_for new_length) maps r together grows fits)

  module _ (hdr : FileHeader) (indirect old : List ℕ) (maps : List Bitmap)
      (last_fragment new_length : ℕ) (last : get_elem? old (length old - 1) ≡ some last_fragment)
      (r : Ready n maps) (reads : gather hdr indirect ≡ some old)
      (fits : fragments_for new_length ≤ 128) (together : Together n big old last_fragment) where
    with_block :
        (block : Option ℕ) (start : List Bitmap)
        → Ready n start
        → ((block ≡ hdr.indirect_block) × (start ≡ maps))
          ⊎ ((id : ℕ) × (block ≡ some id) × Reserved maps id start)
        → length old < fragments_for new_length
        → (a : Allocation) × (resize n
              (record hdr { indirect_block = block })
              indirect
              maps
              old
              new_length
              start
            ≡ some a)
          × Outcome hdr indirect old last_fragment maps new_length a
    unfolding Outcome gather
    with_block block start ready reserved grows =
        let (a, e, outcome) =
          resize-grows (record hdr { indirect_block = block }) indirect old maps start last_fragment
            new_length last ready together grows fits in
        (
          a,
          e,
          elim outcome [
            | inl same ↦ rw same (
                inr (
                  inl
                    (record { failed = refl; same_maps = refl; same_bytes = refl; held = reads })))
            | inr grown ↦
                inr (
                  inr (record { block = block; start = start; reserved = reserved; grown = grown }))
          ],
        )

    -- With a valid free map of n bits, more than 4, for each of the two cylinder groups, a file
    -- that has a fragment, whose fragments can be gathered and whose fragments behind its last
    -- whole block lie in the group of its last fragment, and a new length of at most 128 fragments,
    -- Allocate returns. Either the file has enough fragments and only its length changes; or the
    -- answer is FALSE, and the maps, the length and the fragments of the file are as before; or the
    -- file has the new length and the number of fragments for it: those of its whole old blocks,
    -- and added ones. Then, with the fragments behind the last whole old block given back, and one
    -- reserved for the indirect block if the inode had none and needs one, the added fragments were
    -- free, and they alone came to be in use.
    pub allocate-Outcome :
        (a : Allocation) × (allocate n hdr indirect maps new_length ≡ some a)
        × Outcome hdr indirect old last_fragment maps new_length a
    unfolding allocate Outcome Block
    allocate-Outcome =
        let counted = gather-count hdr indirect old reads in
        elim (Bool-cases (ltb (length old) (fragments_for new_length))) [
          | inr e ↦
              let direct =
                no_block (length old) hdr.num_fragments (fragments_for new_length) counted e in
              let fits_old = not_fewer (length old) (fragments_for new_length) e in
              rw (reads, direct)
                (
                  _,
                  resize-keeps n hdr indirect old maps maps last_fragment new_length last fits_old,
                  inl (record { enough = fits_old; same = refl }),
                )
          | inl e ↦
              elim (Bool-cases (leb hdr.num_fragments 16 && ltb 16 (fragments_for new_length))) [
                | inr direct ↦
                    rw (reads, direct)
                      (with_block hdr.indirect_block maps r (inl (refl, refl)) (fewer _ _ e))
                | inl indirectly ↦ elim (find_indirect-Block 2 0 maps r refl) [
                  | inr full ↦
                      rw (reads, indirectly, full)
                        (
                          _,
                          refl,
                          inr (
                              inl (record {
                                failed = refl;
                                same_maps = refl;
                                same_bytes = refl;
                                held = reads;
                              })),
                        )
                  | inl (id, out, found, reserved) ↦
                      rw (reads, indirectly, found)
                        (with_block (some id) out reserved.ready (inr (id, refl, reserved))
                          (fewer _ _ e))
                ]
              ]
        ]
