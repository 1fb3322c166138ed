-- ===== src/FileSystem/Unlink/Freed.antt =====
-- What Unlink gives back.
use everything.Base.{
  ℕ, ◌+◌, ◌-◌, ◌*◌, ◌/◌, ◌%◌, ◌≤◌, ◌<◌, ◌≡◌, ◌≢◌, refl, ap, ◌∙◌, inl, inr, Bool, true, false,
  Option, none, some, List, [], ◌∷◌, ◌++◌, ◌⊎◌, ltb, ◌==◌, ◌||◌, if◌then◌else◌, arith, Option-cases,
}
use native.Mathlib.Nat.{mod-eq-sub-div-mul, div-mul-le_self, mod-lt, div-eq_of_lt}
use everything.Bitmap.{Bitmap}
use everything.FileSystem.Layout.{cylinder_groups}
use everything.FileSystem.Inode.{FileHeader, gather}
use everything.FileSystem.Allocate.Claims.{used, Ready, clear_at-Stored, position-fragment}
use everything.FileSystem.Unlink.{FreeMaps, clear_fragments, clear_indirect, clear_inode, unlink}

before-lt : (k m : ℕ) → k % m ≢ 0 → k / m * m < k
before-lt k m h = omega (arith, mod-eq-sub-div-mul k m)

small-lt : (k m : ℕ) → 0 < m → k - k / m * m - 1 < m
small-lt k m pos = omega (arith, mod-eq-sub-div-mul k m, mod-lt k pos)

last-refused : (k m : ℕ) → k % m ≡ 0 → ltb (k / m * m) k ≡ false
last-refused k m h = ground (arith, mod-eq-sub-div-mul k m, div-mul-le_self k m)

abbrev pub has : List ℕ → ℕ → Bool
has [] j = false
has (x ∷ xs) j = (x == j) || has xs j

-- All of the fragments lie in a cylinder group.
abbrev pub InGroups : ℕ → List ℕ → Type 0
InGroups n [] = Unit {0}
InGroups n (x ∷ xs) = (x / n < cylinder_groups) × InGroups n xs

module _ (n : ℕ) (pos : 0 < n) where
  -- The fragments are free afterwards, and the others are as before.
  pub record Cleared (maps : List Bitmap) (fragments : List ℕ) (result : Option (List Bitmap))
      : Type 0 where
    pub out : List Bitmap
    pub returns : result ≡ some out
    pub ready : Ready n out
    pub marks : (j : ℕ) → used n out j ≡ (if has fragments j then false else used n maps j)

  clear_fragments-Cleared :
      (fragments : List ℕ) (maps : List Bitmap)
      → Ready n maps
      → InGroups n fragments
      → Cleared maps fragments (clear_fragments n fragments maps)
  unfolding clear_fragments
  clear_fragments-Cleared [] maps r h = record {
    out = maps;
    returns = refl;
    ready = r;
    marks = λ j. refl;
  }
  clear_fragments-Cleared (x ∷ xs) maps r (g, h) =
      let s = clear_at-Stored n pos maps (x % n) (x / n) r (mod-lt x pos) g in
      let m = clear_fragments-Cleared xs s.out s.ready h in
      let place = position-fragment n pos x (x / n) refl in
      record {
        out = m.out;
        returns = rw s.returns m.returns;
        ready = m.ready;
        marks = λ j. ground (arith, m.marks j, s.marks j, place);
      }

  -- The fragment of the indirect block, if the file has one; it lies in the first group.
  unfoldable pub Indirect : FileHeader → List ℕ → Type 0
  Indirect hdr blocks =
      ((hdr.num_fragments ≤ 16) × (blocks ≡ []))
      ⊎ ((16 < hdr.num_fragments)
          × ((block : ℕ) × (hdr.indirect_block ≡ some block) × (block < n) × (blocks ≡ block ∷ [])))

  Indirect-Cleared :
      (hdr : FileHeader) (blocks : List ℕ) (maps : List Bitmap)
      → Ready n maps
      → Indirect hdr blocks
      → Cleared maps blocks
          (if ltb 16 hdr.num_fragments then clear_indirect n hdr maps else some maps)
  unfolding Indirect clear_indirect
  Indirect-Cleared hdr blocks maps r (inl (few, e)) =
      let direct : ltb 16 hdr.num_fragments ≡ false = ground arith in
      rw (direct, e) (record { out = maps; returns = refl; ready = r; marks = λ j. refl })
  Indirect-Cleared hdr blocks maps r (inr (many, (block, is_block, low, e))) =
      let indirectly : ltb 16 hdr.num_fragments ≡ true = ground arith in
      let s = clear_at-Stored n pos maps block 0 r low (omega arith) in
      rw (indirectly, e, is_block, div-eq_of_lt low)
        (record {
          out = s.out;
          returns = s.returns;
          ready = s.ready;
          marks = λ j. ground (arith, s.marks j);
        })

module _ (n m : ℕ) (n_pos : 0 < n) (m_pos : 0 < m) where
  -- Afterwards the file's fragments and that of its indirect block are free, and so is its inode; the
  -- other fragments and inodes are as before.
  pub record Unlinked (maps : FreeMaps) (inode : ℕ) (freed : List ℕ) (result : Option FreeMaps)
      : Type 0 where
    pub out : FreeMaps
    pub returns : result ≡ some out
    pub ready_fragments : Ready n out.fragments
    pub ready_inodes : Ready m out.inodes
    pub fragments :
        (j : ℕ) → used n out.fragments j ≡ (if has freed j then false else used n maps.fragments j)
    pub inodes :
        (j : ℕ) → used m out.inodes j ≡ (if inode - 1 == j then false else used m maps.inodes j)

  has-append : (xs ys : List ℕ) (j : ℕ) → has (xs ++ ys) j ≡ (has xs j || has ys j)
  has-append [] ys j = refl
  has-append (x ∷ xs) ys j = ground (arith, has-append xs ys j)

  module _ (hdr : FileHeader) (indirect fragments blocks : List ℕ) (inode : ℕ) (maps : FreeMaps)
      (rf : Ready n maps.fragments) (ri : Ready m maps.inodes)
      (reads : gather hdr indirect ≡ some fragments) (inside : InGroups n fragments)
      (block : Indirect n n_pos hdr blocks) (is_inode : hdr.id ≡ inode) where
    place : (inode / m * m < inode) → (inode - inode / m * m - 1) + inode / m * m ≡ inode - 1
    place h = omega arith

    -- With a valid free map of fragments and of inodes for each of the two cylinder groups, a file
    -- whose fragments can be gathered and lie in the groups, an indirect block in the first group
    -- if the file has more than 16 fragments, and an inode of the groups that is not the last one
    -- of its group, Unlink succeeds, and the fragments of the file and of its indirect block, and
    -- its inode, are free, all others as before.
    pub unlink-Unlinked :
        inode % m ≢ 0
        → inode / m < cylinder_groups
        → Unlinked maps inode (blocks ++ fragments) (unlink m n inode hdr indirect maps)
    unfolding unlink clear_inode
    unlink-Unlinked inner low =
        let b = Indirect-Cleared n n_pos hdr blocks maps.fragments rf block in
        let f = clear_fragments-Cleared n n_pos fragments b.out b.ready inside in
        let before : inode / m * m < inode = before-lt inode m inner in
        let small : inode - inode / m * m - 1 < m = small-lt inode m m_pos in
        let guard : ltb (inode / m * m) inode ≡ true = ground arith in
        let i =
          clear_at-Stored m m_pos maps.inodes (inode - inode / m * m - 1) (inode / m) ri small
            low in
        record {
          out = record { fragments = f.out; inodes = i.out };
          returns = rw (reads, b.returns, f.returns, is_inode, guard, i.returns) refl;
          ready_fragments = f.ready;
          ready_inodes = i.ready;
          fragments = λ j. ground (arith, f.marks j, b.marks j, has-append blocks fragments j);
          inodes = λ j.
              i.marks j
              ∙ ap (λ (t : ℕ). if t == j then false else used m maps.inodes j) (place before);
        }

-- Unlink of an inode whose number is a multiple of the number of inodes in a group never succeeds.
pub unlink-last :
    (n m inode : ℕ) (hdr : FileHeader) (indirect : List ℕ) (maps : FreeMaps)
    → hdr.id ≡ inode
    → inode % m ≡ 0
    → unlink m n inode hdr indirect maps ≡ none
unfolding unlink clear_inode
unlink-last n m inode hdr indirect maps is_inode last =
    let refused : ltb (inode / m * m) inode ≡ false = last-refused inode m last in
    elim (Option-cases (gather hdr indirect)) [
      | inl e ↦ rw e refl
      | inr (fragments, e) ↦
          elim (Option-cases (
            if ltb 16 hdr.num_fragments
            then clear_indirect n hdr maps.fragments
            else some maps.fragments)) [
              | inl e' ↦ rw (e, e') refl
              | inr (maps₁, e') ↦ elim (Option-cases (clear_fragments n fragments maps₁)) [
                | inl e'' ↦ rw (e, e', e'') refl
                | inr (maps₂, e'') ↦ rw (e, e', e'', is_inode, refused) refl
              ]
            ]
    ]
