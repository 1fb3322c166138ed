-- ===== src/FileSystem/Allocate/Growth.antt =====
-- The branch of Allocate for a file that grows.
use everything.Base.{
  ℕ, zero, suc, ◌+◌, ◌-◌, ◌/◌, ◌%◌, ◌≤◌, ◌<◌, ◌≡◌, refl, ap, ◌∙◌, ◌≢◌, ◌⊎◌, inl, inr, true, false,
  Option, some, List, ◌++◌, arith, ◌==◌, not, ◌&&◌, leb, if◌then◌else◌, length, length-append, take,
  length-take, get_elem?, get_or, get_elem?-eq-get_or, Bool-cases, ◌>>=◌,
}
use native.Mathlib.Decide.{ℕ_discrete}
use native.Mathlib.Nat.{mod-lt}
use everything.Bitmap.{Bitmap}
use everything.FileSystem.Layout.{cylinder_groups}
use everything.FileSystem.Inode.{FileHeader, gather}
use everything.FileSystem.Allocate.{clear_extra, grow, Allocation}
use everything.FileSystem.Allocate.Claims.{
  used, Claims, Claims-append, Ready, clear_at-Stored, position-fragment,
}
use everything.FileSystem.Allocate.Groups.{fill_groups-Added, place_rest-Added}
use everything.FileSystem.Allocate.Kept.{gather-install}

module _ (n : ℕ) (big : 4 < n) where
  -- The last fragments of a file, counted from the end, are given back: those numbered `i` to
  -- `i + left`, and no other.
  pub record Freed (old : List ℕ) (i left : ℕ) (maps : List Bitmap) (result : Option (List Bitmap))
      : Type 0 where
    pub out : List Bitmap
    pub returns : result ≡ some out
    pub ready : Ready n out
    pub free :
        (k f : ℕ)
        → i ≤ k
        → k < i + left
        → get_elem? old (length old - k) ≡ some f
        → used n out f ≡ false
    pub still_free : (f : ℕ) → used n maps f ≡ false → used n out f ≡ false
    pub rest :
        (f : ℕ)
        → ((k : ℕ) → i ≤ k → k < i + left → get_elem? old (length old - k) ≢ some f)
        → used n out f ≡ used n maps f

  clear_extra-Freed :
      (left i g : ℕ) (old : List ℕ) (maps : List Bitmap)
      → Ready n maps
      → 1 ≤ i
      → i + left ≤ suc (length old)
      → ((k f : ℕ)
          → i ≤ k
          → k < i + left
          → get_elem? old (length old - k) ≡ some f
          → (f / n ≡ g) × (g < cylinder_groups))
      → Freed old i left maps (clear_extra n left i g old maps)
  unfolding clear_extra
  clear_extra-Freed zero i g old maps r from fits same = record {
    out = maps;
    returns = refl;
    ready = r;
    free = λ k f lo hi at. absurd (omega arith);
    still_free = λ f e. e;
    rest = λ f h. refl;
  }
  clear_extra-Freed (suc left) i g old maps r from fits same =
      let f : ℕ = get_or old (length old - i) 0 in
      let at : get_elem? old (length old - i) ≡ some f =
        get_elem?-eq-get_or old (length old - i) 0 (omega arith) in
      let (group, low) = same i f (omega arith) (omega arith) at in
      let s = clear_at-Stored n (omega arith) maps (f % n) g r (mod-lt f (omega arith)) low in
      let m =
        clear_extra-Freed left (i + 1) g old s.out s.ready (omega arith) (omega arith)
          (λ k f' lo hi. same k f' (omega arith) (omega arith)) in
      let here = λ (j : ℕ).
        s.marks j
        ∙ ap (λ (t : ℕ). if t == j then false else used n maps j)
            (position-fragment n (omega arith) f g group) in
      record {
        out = m.out;
        returns = rw (at, s.returns, m.returns);
        ready = m.ready;
        free = λ k f' lo hi e. elim (ℕ_discrete k i) [
          | yes p ↦
              let same_place = ap (λ (t : ℕ). get_elem? old (length old - t)) p in
              let it : f ≡ f' = cc in m.still_free f' (here f' ∙ ground (arith, it))
          | no p ↦ m.free k f' (omega arith) (omega arith) e
        ];
        still_free = λ f' e. m.still_free f' (ground (arith, here f'));
        rest = λ f' h.
            m.rest f' (λ k lo hi. h k (omega arith) (omega arith))
            ∙ here f'
            ∙ ground (
              arith,
              at,
              h i (omega arith) (omega arith),
              ap (λ (t : ℕ). some t) {x = f} {y = f'},
            );
      }

  -- What a growth that succeeds promises. The fragments of the old last block are given back; those that
  -- are added were free after that and alone came to be in use; the file has its whole old blocks and
  -- then those that were added, `num_new` in all.
  pub record Succeeded (hdr : FileHeader) (old : List ℕ) (last_fragment new_length num_new : ℕ)
      (maps : List Bitmap) (a : Allocation) : Type 0 where
    pub freed :
        Freed old 1
          (length old % 4)
          maps
          (clear_extra n (length old % 4) 1 (last_fragment / n) old maps)
    pub added : List ℕ
    pub success : a.success ≡ true
    pub bytes : a.header.num_bytes ≡ new_length
    pub fragments : a.header.num_fragments ≡ num_new
    pub block : a.header.indirect_block ≡ hdr.indirect_block
    pub held : gather a.header a.indirect ≡ some (take (length old - length old % 4) old ++ added)
    pub count : length (take (length old - length old % 4) old ++ added) ≡ num_new
    pub claims : Claims (used n freed.out) added (used n a.maps)
    pub ready : Ready n a.maps

  fits_leb : {m k : ℕ} → m ≤ k → leb m k ≡ true
  fits_leb h = ground arith

  zero_of : (k : ℕ) → (k == 0) ≡ true → k ≡ 0
  zero_of k h = ground arith

  -- The group that the search starts with.
  last_group :
      (old : List ℕ) (cylinder : ℕ)
      → (g : ℕ) × ((if not (length old % 4 == 0) && not (length old / 4 == 0)
            then (get_elem? old (length old - length old % 4) >>= λ f. some (f / n))
            else some cylinder)
          ≡ some g)
  last_group old cylinder = elim (Bool-cases (length old % 4 == 0)) [
    | inl e ↦ (cylinder, rw e refl)
    | inr e ↦ elim (Bool-cases (length old / 4 == 0)) [
      | inl z ↦ (cylinder, rw (e, z) refl)
      | inr z ↦ (
        get_or old (length old - length old % 4) 0 / n,
        rw (e, z, get_elem?-eq-get_or old (length old - length old % 4) 0 (ground arith)) refl,
      )
    ]
  ]

  -- The file's last fragments, those of no whole block, lie in the group of its last fragment.
  abbrev pub Together : List ℕ → ℕ → Type 0
  Together old last_fragment =
      (k f : ℕ)
      → 1 ≤ k
      → k < 1 + length old % 4
      → get_elem? old (length old - k) ≡ some f
      → (f / n ≡ last_fragment / n) × (last_fragment / n < cylinder_groups)

  module _ (hdr : FileHeader) (indirect : List ℕ) (on_disk : List Bitmap) (old : List ℕ)
      (last_fragment new_length num_new : ℕ) (maps : List Bitmap) (r : Ready n maps)
      (together : Together old last_fragment) (grows : length old < num_new)
      (fits : num_new ≤ 128) where
    pub grow-Succeeded :
        (a : Allocation) × (grow n hdr indirect on_disk old last_fragment new_length num_new maps
          ≡ some a)
        × ((a ≡ record { success = false; header = hdr; indirect = indirect; maps = on_disk })
            ⊎ Succeeded hdr old last_fragment new_length num_new maps a)
    unfolding grow
    grow-Succeeded =
        let freed =
          clear_extra-Freed (length old % 4) 1 (last_fragment / n) old maps r (omega arith)
            (omega arith) together in
        let (last, here) = last_group old (last_fragment / n) in
        let blocks =
          fill_groups-Added n big 2 0 last (num_new / 4 - length old / 4) freed.out freed.ready in
        let more =
          place_rest-Added n big 2 0 last (num_new % 4) blocks.out blocks.ready (omega arith) in
        let kept = length-take (length old - length old % 4) old (omega arith) in
        let two = length-append blocks.fragments more.fragments in
        let three =
          length-append (take (length old - length old % 4) old)
            (blocks.fragments ++ more.fragments) in
        let fit₁ : leb (length blocks.fragments) 128 ≡ true =
          fits_leb (omega (arith, blocks.count)) in
        let fit₂ : leb (length (blocks.fragments ++ more.fragments)) 128 ≡ true =
          fits_leb (omega (arith, two, blocks.count, more.count)) in
        let fit₃ : leb
              (length
                (take (length old - length old % 4) old ++ (blocks.fragments ++ more.fragments)))
              128
            ≡ true =
          fits_leb (omega (arith, three, two, kept, blocks.count, more.count)) in
        elim (Bool-cases (blocks.left == 0)) [
          | inr e ↦ (_, rw (freed.returns, here, blocks.returns, fit₁, e) refl, inl refl)
          | inl e ↦ elim (Bool-cases (more.left == 0)) [
            | inr e' ↦ (
              _,
              rw (freed.returns, here, blocks.returns, fit₁, e, more.returns, fit₂, fit₃, e') refl,
              inl refl,
            )
            | inl e' ↦
                let all : length (
                      take (length old - length old % 4) old
                      ++ (blocks.fragments ++ more.fragments))
                    ≡ num_new =
                  omega (
                    arith,
                    three,
                    two,
                    kept,
                    blocks.count,
                    more.count,
                    zero_of blocks.left e,
                    zero_of more.left e',
                  ) in
                (
                  _,
                  rw (freed.returns, here, blocks.returns, fit₁, e, more.returns, fit₂, fit₃, e')
                      refl,
                  inr (record {
                    freed = freed;
                    added = blocks.fragments ++ more.fragments;
                    success = refl;
                    bytes = refl;
                    fragments = refl;
                    block = refl;
                    held = gather-install hdr indirect _ new_length num_new more.out all fits;
                    count = all;
                    claims =
                        Claims-append blocks.fragments more.fragments _ _ _ blocks.claims
                          more.claims;
                    ready = more.ready;
                  }),
                )
          ]
        ]
