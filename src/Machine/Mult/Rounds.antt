-- ===== src/Machine/Mult/Rounds.antt =====
-- The loop of Mult in machine/mipssim.cc.
use everything.Base.{
  ℕ, zero, suc, ◌+◌, ◌*◌, ◌/◌, ◌%◌, ◌^◌, ◌≤◌, ◌<◌, ◌≡◌, refl, ap, ap₂, ◌∙◌, inl, inr, true, false,
  arith, Bool-cases, ◌==◌,
}
use native.Mathlib.Nat.{pow-suc, one-le-pow}
use everything.Machine.Word.{sar32}
use everything.Machine.Mult.{Product, accumulate, shift, rounds}
use everything.Machine.Mult.Digits.{remaining, remaining-suc, remaining-small}

abbrev pub value : Product → ℕ
value s = s.hi * 2 ^ 32 + s.lo

abbrev pub multiplicand : Product → ℕ
multiplicand s = s.b_hi * 2 ^ 32 + s.b_lo

pub record IsWords (s : Product) : Type 0 where
  pub a : s.a < 2 ^ 32
  pub b_lo : s.b_lo < 2 ^ 32
  pub b_hi : s.b_hi < 2 ^ 32
  pub lo : s.lo < 2 ^ 32
  pub hi : s.hi < 2 ^ 32

accumulate-value :
    (s : Product)
    → IsWords s
    → value s + multiplicand s < 2 ^ 64
    → (value (accumulate s) ≡ value s + multiplicand s)
      × IsWords (accumulate s)
      × (multiplicand (accumulate s) ≡ multiplicand s)
      × ((accumulate s).a ≡ s.a)
unfolding accumulate
accumulate-value s w h = (ground arith, ground arith, refl, refl)

shift-multiplicand :
    (s : Product)
    → IsWords s
    → 2 * multiplicand s < 2 ^ 64
    → (multiplicand (shift s) ≡ 2 * multiplicand s)
      × IsWords (shift s)
      × (value (shift s) ≡ value s)
      × ((shift s).a ≡ sar32 s.a 1)
unfolding shift
shift-multiplicand s w h = (ground arith, ground arith, refl, refl)

-- Room for the shifts of the rounds left.
abbrev pub HasRoom : ℕ → Product → Type 0
HasRoom left s = (multiplicand s + 1) * 2 ^ left ≤ 2 ^ 64

room_double : (x p n : ℕ) → 1 ≤ p → (x + 1) * (p * 2) ≤ n → (2 * x + 2 ≤ n) × ((2 * x + 1) * p ≤ n)
room_double x p n h k = (grind arith, omega arith)

room_suc :
    (left : ℕ) (s : Product)
    → HasRoom (suc left) s
    → (2 * multiplicand s < 2 ^ 64) × ((2 * multiplicand s + 1) * 2 ^ left ≤ 2 ^ 64)
room_suc left s h =
    let k : (multiplicand s + 1) * (2 ^ left * 2) ≤ 2 ^ 64 = rw (← pow-suc 2 left) h in
    let d = room_double (multiplicand s) (2 ^ left) (2 ^ 64) (one-le-pow left 2 (omega arith)) k in
    (omega (arith, d.0), d.1)

-- What the rounds come to.
abbrev pub Computes : ℕ → Product → Type 0
Computes left s =
    (value (rounds left s) ≡ value s + remaining left s.a * multiplicand s)
    × IsWords (rounds left s)

-- A round that shifts, from a state `s'` that has `added` more than `s`.
next_round :
    (left : ℕ) (s s' : Product) (added : ℕ)
    → IsWords s'
    → HasRoom (suc left) s
    → value s' ≡ value s + added * multiplicand s
    → multiplicand s' ≡ multiplicand s
    → s'.a ≡ s.a
    → s.a % 2 ≡ added
    → value s + remaining (suc left) s.a * multiplicand s < 2 ^ 64
    → (IsWords (shift s')
        → HasRoom left (shift s')
        → value (shift s') + remaining left (shift s').a * multiplicand (shift s') < 2 ^ 64
        → Computes left (shift s'))
    → (value (rounds left (shift s')) ≡ value s + remaining (suc left) s.a * multiplicand s)
      × IsWords (rounds left (shift s'))
next_round left s s' added w room v m a bit small rec =
    let (dbl, room') = room_suc left s room in
    let (m₂, w₂, v₂, a₂) = shift-multiplicand s' w (omega (arith, m)) in
    let r : ℕ = remaining left (sar32 s.a 1) in
    let same : remaining left (shift s').a ≡ r =
      ap (remaining left) (a₂ ∙ ap (λ (t : ℕ). sar32 t 1) a) in
    let twice : multiplicand (shift s') ≡ 2 * multiplicand s = omega (arith, m₂, m) in
    let prod : remaining left (shift s').a * multiplicand (shift s') ≡ r * (2 * multiplicand s) =
      ap₂ ◌*◌ same twice in
    let expand : remaining (suc left) s.a * multiplicand s ≡ (added + 2 * r) * multiplicand s =
      ap (λ (t : ℕ). t * multiplicand s) (omega (arith, remaining-suc left s.a)) in
    let (done, words) = rec w₂ (rw twice room') (omega (arith, v₂, v, prod, expand)) in
    (omega (arith, done, v₂, v, prod, expand), words)

rounds-skip :
    (left : ℕ) (s : Product) → (s.a % 2 == 1) ≡ false → rounds (suc left) s ≡ rounds left (shift s)
unfolding rounds
rounds-skip left s e = rw e

rounds-last :
    (left : ℕ) (s : Product)
    → (s.a % 2 == 1) ≡ true
    → (s.a / 2 == 0) ≡ true
    → rounds (suc left) s ≡ accumulate s
unfolding rounds
rounds-last left s e f = rw (e, f)

rounds-next :
    (left : ℕ) (s : Product)
    → (s.a % 2 == 1) ≡ true
    → (s.a / 2 == 0) ≡ false
    → rounds (suc left) s ≡ rounds left (shift (accumulate s))
unfolding rounds
rounds-next left s e f = rw (e, f)

pub rounds-Computes :
    (left : ℕ) (s : Product)
    → IsWords s
    → HasRoom left s
    → value s + remaining left s.a * multiplicand s < 2 ^ 64
    → Computes left s
rounds-Computes zero s w room small = unfold rounds remaining in (omega arith, w)
rounds-Computes (suc left) s w room small =
    go (rounds-Computes left (shift s)) (rounds-Computes left (shift (accumulate s)))
  where
    again : Product → Type 0
    again s' =
        IsWords s'
        → HasRoom left s'
        → value s' + remaining left s'.a * multiplicand s' < 2 ^ 64
        → Computes left s'

    odd : s.a % 2 ≡ 1 → (value s + multiplicand s < 2 ^ 64)
    odd e = omega (
      arith,
      ap (λ (t : ℕ). t * multiplicand s) (remaining-suc left s.a),
      ap (λ (t : ℕ). t * multiplicand s) e,
    )

    last :
        s.a % 2 ≡ 1
        → s.a / 2 ≡ 0
        → (s.a % 2 == 1) ≡ true
        → (s.a / 2 == 0) ≡ true
        → Computes (suc left) s
    last e f e' f' =
        let (v, w', _, _) = accumulate-value s w (odd e) in
        rw (rounds-last left s e' f') (
          omega (arith, v, ap (λ (t : ℕ). t * multiplicand s) (remaining-small left s.a f ∙ e)),
          w',
        )

    go : again (shift s) → again (shift (accumulate s)) → Computes (suc left) s
    go skip next = elim (Bool-cases (s.a % 2 == 1)) [
      | inr e ↦
          rw (rounds-skip left s e)
            (next_round left s s 0 w room (omega arith) refl refl (ground arith) small skip)
      | inl e ↦ elim (Bool-cases (s.a / 2 == 0)) [
        | inl f ↦ last (ground arith) (ground arith) e f
        | inr f ↦
            let (v, w', m, a) = accumulate-value s w (odd (ground arith)) in
            rw (rounds-next left s e f) (
              next_round left s (accumulate s) 1 w' room (omega (arith, v)) m a (ground arith) small
                next)
      ]
    ]
