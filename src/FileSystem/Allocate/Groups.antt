-- ===== src/FileSystem/Allocate/Groups.antt =====
-- The searches of Allocate over the cylinder groups: whole blocks, then the fragments of the last block.
use everything.Base.{
  ℕ, zero, suc, ◌+◌, ◌*◌, ◌%◌, ◌≤◌, ◌<◌, ◌≡◌, refl, ap, ◌∙◌, ◌⊎◌, inl, inr, false, Option, none,
  some, List, [], ◌++◌, arith, ◌==◌, if◌then◌else◌, length, length-append, get_elem?, ltb,
}
use everything.Bitmap.{Bitmap}
use everything.FileSystem.Layout.{cylinder_groups}
use everything.FileSystem.Place.{
  consecutive, next_aligned_fragments, next_place_for_small_fragments,
}
use everything.FileSystem.Place.Aligned.{Aligned, next_aligned_fragments-Aligned}
use everything.FileSystem.Place.Small.{next_place_for_small_fragments-Placed}
use everything.FileSystem.Allocate.{fill_group, fill_groups, take_place, place_rest}
use everything.FileSystem.Allocate.Claims.{
  used, Claims, Claims-append, Ready, get-map, mark_all-Marked, used-at,
}

suc-not_zero : (k : ℕ) → (suc k == 0) ≡ false
suc-not_zero k = ground arith

least : (size m : ℕ) → size ≤ m → (if ltb size m then size else m) ≡ size
least size m h = ground arith

length-consecutive : (k p : ℕ) → length (consecutive k p) ≡ k
unfolding consecutive
length-consecutive zero p = refl
length-consecutive (suc k) p = ap suc (length-consecutive k (p + 1))

module _ (n : ℕ) (big : 4 < n) where
  -- What a search promises of the fragments it added: they were free, and they alone came to be in use.
  -- `want` counts the fragments added and the fragments of what is left.
  pub record Added (maps : List Bitmap) (want unit : ℕ) (result : Option (List ℕ × ℕ × List Bitmap))
      : Type 0 where
    pub fragments : List ℕ
    pub left : ℕ
    pub out : List Bitmap
    pub returns : result ≡ some (fragments, left, out)
    pub ready : Ready n out
    pub count : length fragments + unit * left ≡ want
    pub claims : Claims (used n maps) fragments (used n out)

  nothing-Added :
      (maps : List Bitmap) (left want unit : ℕ) {result : Option (List ℕ × ℕ × List Bitmap)}
      → Ready n maps
      → unit * left ≡ want
      → result ≡ some ([], left, maps)
      → Added maps want unit result
  nothing-Added maps left want unit r e returns = record {
    fragments = [];
    left = left;
    out = maps;
    returns = returns;
    ready = r;
    count = omega (arith, e);
    claims = λ j. refl;
  }

  fill_group-Added :
      (rest g : ℕ) (maps : List Bitmap)
      → Ready n maps
      → g < cylinder_groups
      → Added maps (4 * rest) 4 (fill_group n rest g maps)
  unfolding fill_group
  fill_group-Added zero g maps r low = nothing-Added maps 0 0 4 r refl refl
  fill_group-Added (suc rest) g maps r low =
      let (b, at) = get-map n (omega arith) maps g r low in
      let (ret, e, a) =
        next_aligned_fragments-Aligned b n 4 4 (r.valid g b at) (omega (arith, r.bits g b at))
          (omega arith) (omega arith) in
      go b at ret e a (λ maps' r'. fill_group-Added rest g maps' r' low)
    where
      go :
          (b : Bitmap)
          → get_elem? maps g ≡ some b
          → (ret : List ℕ) → next_aligned_fragments n b 4 4 ≡ some ret
          → Aligned b n 4 4 ret
          → ((maps' : List Bitmap)
              → Ready n maps'
              → Added maps' (4 * rest) 4 (fill_group n rest g maps'))
          → Added maps (4 * suc rest) 4 (fill_group n (suc rest) g maps)
      go b at ret e (inr a) more =
          nothing-Added maps (suc rest) (4 * suc rest) 4 r refl (rw (at, e, a.empty) refl)
      go b at ret e (inl a) more =
          let m =
            mark_all-Marked n (omega arith) 4 a.start g maps r low
              (omega (arith, a.inside.to, a.inside.below))
              (λ j from to.
                used-at n (omega arith) maps g j b at (omega (arith, a.inside.to, a.inside.below))
                ∙ a.free j from to) in
          let later = more m.out m.ready in
          record {
            fragments = m.fragments ++ later.fragments;
            left = later.left;
            out = later.out;
            returns =
                rw (at, e, a.fragments, length-consecutive 4 a.start, m.returns, later.returns)
                  refl;
            ready = later.ready;
            count = omega (arith, length-append m.fragments later.fragments, m.count, later.count);
            claims = Claims-append m.fragments later.fragments _ _ _ m.claims later.claims;
          }

  pub fill_groups-Added :
      (rounds i last rest : ℕ) (maps : List Bitmap)
      → Ready n maps
      → Added maps (4 * rest) 4 (fill_groups n rounds i last rest maps)
  unfolding fill_groups
  fill_groups-Added zero i last rest maps r = nothing-Added maps rest (4 * rest) 4 r refl refl
  fill_groups-Added (suc rounds) i last zero maps r = nothing-Added maps 0 0 4 r refl refl
  fill_groups-Added (suc rounds) i last (suc rest) maps r =
      let here = fill_group-Added (suc rest) ((i + last) % 2) maps r (omega arith) in
      let later = fill_groups-Added rounds (i + 1) last here.left here.out here.ready in
      record {
        fragments = here.fragments ++ later.fragments;
        left = later.left;
        out = later.out;
        returns = rw (suc-not_zero rest, here.returns, later.returns) refl;
        ready = later.ready;
        count =
            omega (arith, length-append here.fragments later.fragments, here.count, later.count);
        claims = Claims-append here.fragments later.fragments _ _ _ here.claims later.claims;
      }

  -- What one search of a group for `size` fragments gave.
  Found : ℕ → ℕ → List Bitmap → Option ℕ × ℕ → Type 0
  Found size g maps place =
      ((p : ℕ) × (m : ℕ) × (place ≡ (some p, m))
        × (size ≤ m)
        × (p + m ≤ n)
        × ((j : ℕ) → p ≤ j → j < p + m → used n maps (j + g * n) ≡ false))
      ⊎ (place.0 ≡ none)

  search-Found :
      (rest g : ℕ) (maps : List Bitmap) (b : Bitmap)
      → Ready n maps
      → suc rest ≤ 4
      → get_elem? maps g ≡ some b
      → (place : Option ℕ × ℕ) × (next_place_for_small_fragments n b 4 (suc rest) ≡ some place)
        × Found (suc rest) g maps place
  unfolding Found
  search-Found rest g maps b r small at =
      let (place, e, p) =
        next_place_for_small_fragments-Placed b n (suc rest) (r.valid g b at)
          (omega (arith, r.bits g b at)) (omega arith) small big in
      (
        place,
        e,
        elim p [
          | inl p ↦ inl (
            p.p,
            p.m,
            p.result_is,
            p.enough,
            p.fits.below,
            λ j from to.
                used-at n (omega arith) maps g j b at (omega (arith, p.fits.below))
                ∙ p.free j from to,
          )
          | inr p ↦ inr p.unset
        ],
      )

  take_place-Added :
      (rest g : ℕ) (maps : List Bitmap) (place : Option ℕ × ℕ)
      {next : Option (List ℕ × ℕ × List Bitmap)}
      → Ready n maps
      → g < cylinder_groups
      → Found (suc rest) g maps place
      → Added maps (suc rest) 1 next
      → Added maps (suc rest) 1 (take_place n (suc rest) g maps place next)
  unfolding take_place Found
  take_place-Added rest g maps (none, len) {next} r low f later = later
  take_place-Added rest g maps (some p, len) {next} r low (inr e) later = absurd cc
  take_place-Added rest g maps (some p, len) {next} r low (inl (q, m, e, enough, fits, free))
        later =
      let k =
        mark_all-Marked n (omega arith) (suc rest) q g maps r low (omega arith)
          (λ j from to. free j from (omega arith)) in
      let first : some p ≡ some q = ap (λ (t : Option ℕ × ℕ). t.0) e in
      let same : p ≡ q = cc in
      record {
        fragments = k.fragments;
        left = 0;
        out = k.out;
        returns =
            rw (ap (λ (t : Option ℕ × ℕ). t.1) e, same, least (suc rest) m enough, k.returns) refl;
        ready = k.ready;
        count = omega (arith, k.count);
        claims = k.claims;
      }

  pub place_rest-Added :
      (rounds i last rest : ℕ) (maps : List Bitmap)
      → Ready n maps
      → rest ≤ 4
      → Added maps rest 1 (place_rest n rounds i last rest maps)
  unfolding place_rest
  place_rest-Added zero i last rest maps r small =
      nothing-Added maps rest rest 1 r (omega arith) refl
  place_rest-Added (suc rounds) i last zero maps r small = nothing-Added maps 0 0 1 r refl refl
  place_rest-Added (suc rounds) i last (suc rest) maps r small =
      let g : ℕ = (i + last) % 2 in
      let (b, at) = get-map n (omega arith) maps g r (omega arith) in
      let (place, e, found) = search-Found rest g maps b r small at in
      rw (suc-not_zero rest, at, e)
        (take_place-Added rest g maps place r (omega arith) found
          (place_rest-Added rounds (i + 1) last (suc rest) maps r small))
