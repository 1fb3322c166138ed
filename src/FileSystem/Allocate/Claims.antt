-- ===== src/FileSystem/Allocate/Claims.antt =====
-- The free maps of the cylinder groups as one set of fragments in use, and what it is to claim some.
use everything.Base.{
  ℕ, zero, suc, ◌+◌, ◌*◌, ◌/◌, ◌%◌, ◌≤◌, ◌<◌, ◌≡◌, refl, sym, ap, subst, ◌∙◌, ◌≢◌, Bool, true,
  false, Option, none, some, List, [], ◌∷◌, ◌++◌, arith, ◌==◌, if◌then◌else◌, length, get_elem?,
  set, length-set, get_elem?-set_self, get_elem?-set_ne, get_elem?-some, ◌>>=◌,
}
use native.Mathlib.Nat.{
  add-mul-div_right, add-mul-mod_self_right, mod-eq_of_lt, div-eq_of_lt, div-add-mod,
}
use native.Mathlib.Decide.{ℕ_discrete}
use everything.Bitmap.{Bitmap}
use everything.Bitmap.View.{IsValid, is_marked, Changed, mark-Changed, clear-Changed}
use everything.FileSystem.Layout.{cylinder_groups}
use everything.FileSystem.Place.{consecutive}
use everything.FileSystem.Allocate.{mark_at, clear_at, mark_all}

abbrev pub used_in : Option Bitmap → ℕ → Bool
used_in none i = true
used_in (some b) i = is_marked b i

-- Fragment `f` is in use; a fragment of no group counts as in use.
abbrev pub used : ℕ → List Bitmap → ℕ → Bool
used n maps f = used_in (get_elem? maps (f / n)) (f % n)

-- From `before` to `after`, each of the fragments was free when it was taken, and they alone came to
-- be in use. So they differ from each other.
abbrev pub Claims : (ℕ → Bool) → List ℕ → (ℕ → Bool) → Type 0
Claims before [] after = (j : ℕ) → after j ≡ before j
Claims before (f ∷ fs) after =
    (before f ≡ false) × Claims (λ j. if f == j then true else before j) fs after

pub Claims-cong :
    (fs : List ℕ) (u v w : ℕ → Bool) → ((j : ℕ) → v j ≡ u j) → Claims v fs w → Claims u fs w
Claims-cong [] u v w e c = λ j. c j ∙ e j
Claims-cong (f ∷ fs) u v w e (free, c) = (
  sym (e f) ∙ free,
  Claims-cong fs (λ j. if f == j then true else u j) (λ j. if f == j then true else v j) w
      (λ j. ground (arith, e j)) c,
)

pub Claims-append :
    (fs gs : List ℕ) (u v w : ℕ → Bool) → Claims u fs v → Claims v gs w → Claims u (fs ++ gs) w
Claims-append [] gs u v w c d = Claims-cong gs u v w c d
Claims-append (f ∷ fs) gs u v w (free, c) d =
    (free, Claims-append fs gs (λ j. if f == j then true else u j) v w c d)

-- Each cylinder group has a map of `n` bits.
pub record Ready (n : ℕ) (maps : List Bitmap) : Type 0 where
  pub groups : length maps ≡ cylinder_groups
  pub valid : (g : ℕ) (b : Bitmap) → get_elem? maps g ≡ some b → IsValid b
  pub bits : (g : ℕ) (b : Bitmap) → get_elem? maps g ≡ some b → b.num_bits ≡ n

module _ (n : ℕ) (pos : 0 < n) where
  pub fragment-group : (p g : ℕ) → p < n → (p + g * n) / n ≡ g
  fragment-group p g h = omega (arith, add-mul-div_right p g pos, div-eq_of_lt h)

  pub fragment-position : (p g : ℕ) → p < n → (p + g * n) % n ≡ p
  fragment-position p g h = add-mul-mod_self_right p g n ∙ mod-eq_of_lt h

  pub position-fragment : (f g : ℕ) → f / n ≡ g → f % n + g * n ≡ f
  position-fragment f g e = rw (← e) (omega (arith, div-add-mod f n))

  -- The fragment at position `p` of group `g` is fragment `j`.
  same_fragment : (p g j : ℕ) → p < n → j / n ≡ g → (p + g * n == j) ≡ (p == j % n)
  same_fragment p g j h e = ground (
    arith,
    fragment-position p g h,
    div-add-mod j n,
    ap (λ (t : ℕ). n * t) e,
    ap (λ (t : ℕ). t % n) {x = p + g * n} {y = j},
  )

  other_fragment : (p g j : ℕ) → p < n → j / n ≢ g → (p + g * n == j) ≡ false
  other_fragment p g j h ne =
      ground (arith, fragment-group p g h, ap (λ (t : ℕ). t / n) {x = p + g * n} {y = j})

  pub get-map :
      (maps : List Bitmap) (g : ℕ)
      → Ready n maps
      → g < cylinder_groups
      → (b : Bitmap) × (get_elem? maps g ≡ some b)
  get-map (b ∷ maps) zero r h = (b, refl)
  get-map (b ∷ b' ∷ maps) (suc zero) r h = (b', refl)
  get-map [] g r h = absurd (omega (arith, r.groups))
  get-map (b ∷ []) (suc zero) r h = absurd (omega (arith, r.groups))
  get-map (b ∷ maps) (suc (suc g)) r h = absurd (omega arith)

  -- What a stored map does to the fragments in use.
  pub record Stored (maps : List Bitmap) (p g : ℕ) (x : Bool) (result : Option (List Bitmap))
      : Type 0 where
    pub out : List Bitmap
    pub returns : result ≡ some out
    pub ready : Ready n out
    pub marks : (j : ℕ) → used n out j ≡ (if p + g * n == j then x else used n maps j)

  pub set-Ready :
      (maps : List Bitmap) (g : ℕ) (b b' : Bitmap)
      → Ready n maps
      → get_elem? maps g ≡ some b
      → IsValid b'
      → b'.num_bits ≡ b.num_bits
      → Ready n (set maps g b')
  set-Ready maps g b b' r e v same = record {
    groups = length-set maps g b' ∙ r.groups;
    valid = λ k c at. elim (ℕ_discrete g k) [
      | yes p ↦ subst IsValid (stored k c p at) v
      | no p ↦ r.valid k c (sym (get_elem?-set_ne maps g k b' p) ∙ at)
    ];
    bits = λ k c at. elim (ℕ_discrete g k) [
      | yes p ↦ ap (λ (t : Bitmap). t.num_bits) (sym (stored k c p at)) ∙ same ∙ r.bits g b e
      | no p ↦ r.bits k c (sym (get_elem?-set_ne maps g k b' p) ∙ at)
    ];
  }
    where
      stored : (k : ℕ) (c : Bitmap) → g ≡ k → get_elem? (set maps g b') k ≡ some c → b' ≡ c
      stored k c p at =
          let here = get_elem?-set_self maps g b' (get_elem?-some maps g e) in
          let there = ap (get_elem? (set maps g b')) p ∙ at in cc

  pub used-set :
      (maps : List Bitmap) (p g : ℕ) (b b' : Bitmap) (x : Bool)
      → Ready n maps
      → p < n
      → get_elem? maps g ≡ some b
      → IsValid b'
      → b'.num_bits ≡ b.num_bits
      → ((j : ℕ) → is_marked b' j ≡ (if p == j then x else is_marked b j))
      → (j : ℕ) → used n (set maps g b') j ≡ (if p + g * n == j then x else used n maps j)
  used-set maps p g b b' x r small e v same m j = elim (ℕ_discrete (j / n) g) [
    | yes h ↦
        rw
          (
            h,
            get_elem?-set_self maps g b' (get_elem?-some maps g e),
            e,
            same_fragment p g j small h,
          )
          (m (j % n))
    | no h ↦ rw (get_elem?-set_ne maps g (j / n) b' (λ q. h (sym q)), other_fragment p g j small h)
  ]

  Changed-Stored :
      (maps : List Bitmap) (p g : ℕ) (b : Bitmap) (x : Bool) {m : Option Bitmap}
      → Ready n maps
      → p < n
      → get_elem? maps g ≡ some b
      → Changed b p x m
      → Stored maps p g x (m >>= λ b'. some (set maps g b'))
  Changed-Stored maps p g b x r h e c = record {
    out = set maps g c.out;
    returns = rw c.returns;
    ready = set-Ready maps g b c.out r e c.valid c.same_size;
    marks = used-set maps p g b c.out x r h e c.valid c.same_size c.bits;
  }

  pub mark_at-Stored :
      (maps : List Bitmap) (p g : ℕ)
      → Ready n maps
      → p < n
      → g < cylinder_groups
      → Stored maps p g true (mark_at maps g p)
  unfolding mark_at
  mark_at-Stored maps p g r h low =
      let (b, e) = get-map maps g r low in
      rw e (
        Changed-Stored maps p g b true r h e
          (mark-Changed b p (r.valid g b e) (omega (arith, r.bits g b e))))

  pub clear_at-Stored :
      (maps : List Bitmap) (p g : ℕ)
      → Ready n maps
      → p < n
      → g < cylinder_groups
      → Stored maps p g false (clear_at maps g p)
  unfolding clear_at
  clear_at-Stored maps p g r h low =
      let (b, e) = get-map maps g r low in
      rw e (
        Changed-Stored maps p g b false r h e
          (clear-Changed b p (r.valid g b e) (omega (arith, r.bits g b e))))

  -- What a run of marks promises: `k` fragments are claimed.
  pub record Marked (maps : List Bitmap) (k : ℕ) (result : Option (List ℕ × List Bitmap))
      : Type 0 where
    pub fragments : List ℕ
    pub out : List Bitmap
    pub returns : result ≡ some (fragments, out)
    pub ready : Ready n out
    pub count : length fragments ≡ k
    pub claims : Claims (used n maps) fragments (used n out)

  pub mark_all-Marked :
      (k p g : ℕ) (maps : List Bitmap)
      → Ready n maps
      → g < cylinder_groups
      → p + k ≤ n
      → ((j : ℕ) → p ≤ j → j < p + k → used n maps (j + g * n) ≡ false)
      → Marked maps k (mark_all n maps g (consecutive k p))
  unfolding mark_all consecutive
  mark_all-Marked zero p g maps r low fits free = record {
    fragments = [];
    out = maps;
    returns = refl;
    ready = r;
    count = refl;
    claims = λ j. refl;
  }
  mark_all-Marked (suc k) p g maps r low fits free =
      let s = mark_at-Stored maps p g r (omega arith) low in
      let m =
        mark_all-Marked k (p + 1) g s.out s.ready low (omega arith)
          (λ j from to. ground (arith, s.marks (j + g * n), free j)) in
      record {
        fragments = (p + g * n) ∷ m.fragments;
        out = m.out;
        returns = rw (s.returns, m.returns);
        ready = m.ready;
        count = ap suc m.count;
        claims =
            (free p (omega arith) (omega arith), Claims-cong m.fragments _ _ _ s.marks m.claims);
      }

  -- A free position of a group's map is a free fragment.
  pub used-at :
      (maps : List Bitmap) (g j : ℕ) (b : Bitmap)
      → get_elem? maps g ≡ some b
      → j < n
      → used n maps (j + g * n) ≡ is_marked b j
  used-at maps g j b e h = rw (fragment-group j g h, fragment-position j g h, e)
