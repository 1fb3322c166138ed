-- ===== src/FileSystem/Unlink/Chosen.antt =====
-- Which inode Create takes.
use everything.Base.{
  ℕ, suc, ◌+◌, ◌*◌, ◌<◌, ◌≡◌, refl, sym, ap, subst, ◌∙◌, ◌⊎◌, inl, inr, true, Option, none, some,
  List, [], ◌∷◌, set, set-same, get_elem?, arith,
}
use everything.Bitmap.{Bitmap, find_and_set}
use everything.Bitmap.Search.{FirstClear, find_and_set-Searched}
use everything.Bitmap.View.{is_marked}
use everything.FileSystem.Allocate.Claims.{
  used, Claims, Ready, get-map, set-Ready, used-set, used-at,
}
use everything.FileSystem.Unlink.{find_inode}

module _ (m : ℕ) (pos : 0 < m) where
  -- The number that Create takes, the position `k` of its group and one, with the maps after it.
  pub record Taken (maps : List Bitmap) (k group : ℕ) (result : Option (Option ℕ × List Bitmap))
      : Type 0 where
    pub in_range : k < m
    pub out : List Bitmap
    pub returns : result ≡ some (some (k + 1), out)
    pub ready : Ready m out
    pub claims : Claims (used m maps) ((k + group * m) ∷ []) (used m out)

  Taken-first :
      (rounds group : ℕ) (maps : List Bitmap) (b : Bitmap)
      → Ready m maps
      → get_elem? maps group ≡ some b
      → (s : FirstClear b (find_and_set b))
      → Taken maps s.at group (find_inode (suc rounds) group maps)
  unfolding find_inode
  Taken-first rounds group maps b r at s =
      let small : s.at < m = omega (arith, s.in_range, r.bits group b at) in
      record {
        in_range = small;
        out = set maps group s.out;
        returns = rw (at, s.returns) refl;
        ready = set-Ready m pos maps group b s.out r at s.valid s.same_size;
        claims = (
          used-at m pos maps group s.at b at small ∙ s.was_clear,
          used-set m pos maps s.at group b s.out true r small at s.valid s.same_size s.bits,
        );
      }

  -- A full group is passed.
  full-next :
      (rounds group : ℕ) (maps : List Bitmap) (b : Bitmap)
      → get_elem? maps group ≡ some b
      → find_and_set b ≡ some (none, b)
      → find_inode (suc rounds) group maps ≡ find_inode rounds (group + 1) maps
  unfolding find_inode
  full-next rounds group maps b at full = rw (at, full, set-same maps group at) refl

  -- Every inode of a group is in use.
  abbrev pub Full : List Bitmap → ℕ → Type 0
  Full maps group = (k : ℕ) → k < m → used m maps (k + group * m) ≡ true

  Full-marked :
      (maps : List Bitmap) (group : ℕ) (b : Bitmap)
      → Ready m maps
      → get_elem? maps group ≡ some b
      → ((k : ℕ) → k < b.num_bits → is_marked b k ≡ true)
      → Full maps group
  Full-marked maps group b r at all k h =
      used-at m pos maps group k b at h ∙ all k (omega (arith, r.bits group b at))

  pub Choice : List Bitmap → Option (Option ℕ × List Bitmap) → Type 0
  Choice maps result =
      ((k : ℕ) × Taken maps k 0 result)
      ⊎ ((Full maps 0 × ((k : ℕ) × (used m maps k ≡ true) × Taken maps k 1 result))
          ⊎ ((result ≡ some (none, maps)) × Full maps 0 × Full maps 1))

  -- With a valid free map of inodes for each of the two cylinder groups, the search of Create
  -- returns: the number of a free inode of the first group, which alone comes to be in use; or, if
  -- every inode of the first group is in use, a number that is that of one of these, though an
  -- inode of the second group, which was free, alone comes to be in use; or, if all are in use, -1,
  -- and the maps are as before.
  pub find_inode-Choice : (maps : List Bitmap) → Ready m maps → Choice maps (find_inode 2 0 maps)
  unfolding Choice
  find_inode-Choice maps r =
      let (b, at) = get-map m pos maps 0 r (omega arith) in
      let (b', at') = get-map m pos maps 1 r (omega arith) in
      elim (find_and_set-Searched b (r.valid 0 b at)) [
        | inl s ↦ inl (s.at, Taken-first 1 0 maps b r at s)
        | inr full ↦
            let first_full = Full-marked maps 0 b r at full.all_marked in
            subst (Choice maps) (sym (full-next 1 0 maps b at full.returns))
              (elim (find_and_set-Searched b' (r.valid 1 b' at')) [
                | inl s ↦
                    let t = Taken-first 0 1 maps b' r at' s in
                    let same : s.at ≡ s.at + 0 * m = omega arith in
                    inr (
                      inl
                        (first_full, (s.at, ap (used m maps) same ∙ first_full s.at t.in_range, t)))
                | inr full' ↦ inr (
                    inr (
                      full-next 0 1 maps b' at' full'.returns ∙ unfold find_inode in refl,
                      first_full,
                      Full-marked maps 1 b' r at' full'.all_marked,
                    ))
              ])
      ]
