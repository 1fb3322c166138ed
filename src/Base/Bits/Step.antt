-- ===== src/Base/Bits/Step.antt =====
-- `bit_and` and `bit_or` one binary digit at a time.
use native.Mathlib.Omega.{arith}
use native.Mathlib.Decide.{dec_lt}
use mathlib.Core.Path.{◌≡◌, refl, ap, ◌∙◌}
use Prim.Native.Nat.{
  ℕ, zero, suc, ◌+◌, ◌*◌, ◌/◌, ◌%◌, ◌≤◌, min, max, digits, bit_and, bit_or, bit_and-bitwise,
  bit_or-bitwise,
}

-- `last` is the result once the first number has no digit left, and `both` combines two digits.
module _ (last : ℕ → ℕ) (both : ℕ → ℕ → ℕ) where
  -- One more digit to go than the first number needs changes nothing.
  spare_digit :
      (to_go x y : ℕ) → x ≤ to_go → digits last both (suc to_go) x y ≡ digits last both to_go x y
  spare_digit zero zero y h = refl
  spare_digit (suc to_go) zero y h = refl
  spare_digit zero (suc x) y h = absurd (omega arith)
  spare_digit (suc to_go) (suc x) y h =
      ap (λ (t : ℕ). t * 2 + both (suc x % 2) (y % 2))
        (spare_digit to_go (suc x / 2) (y / 2) (omega arith))

  drop_spare :
      (big small x y : ℕ)
      → x ≤ small
      → small ≤ big
      → digits last both big x y ≡ digits last both small x y
  drop_spare zero small x y h k =
      let e : zero ≡ small = omega arith in ap (λ (t : ℕ). digits last both t x y) e
  drop_spare (suc big) small x y h k = go (drop_spare big small x y h)
    where
      go :
          (small ≤ big → digits last both big x y ≡ digits last both small x y)
          → digits last both (suc big) x y ≡ digits last both small x y
      go rest = elim (dec_lt big small) [
        | yes same ↦
            let e : suc big ≡ small = omega arith in ap (λ (t : ℕ). digits last both t x y) e
        | no less ↦ spare_digit big x y (omega arith) ∙ rest (omega arith)
      ]

  halves :
      (x y : ℕ)
      → digits last both (suc x) (suc x) y
        ≡ digits last both (suc x / 2) (suc x / 2) (y / 2) * 2 + both (suc x % 2) (y % 2)
  halves x y =
      ap (λ (t : ℕ). t * 2 + both (suc x % 2) (y % 2))
        (drop_spare x (suc x / 2) (suc x / 2) (y / 2) (omega arith) (omega arith))

pub bit_and_step : (x y : ℕ) → bit_and x y ≡ bit_and (x / 2) (y / 2) * 2 + min (x % 2) (y % 2)
bit_and_step zero y = simp bit_and-bitwise (omega arith)
bit_and_step (suc x) y = simp bit_and-bitwise (halves (λ _. 0) min x y)

pub bit_or_step : (x y : ℕ) → bit_or x y ≡ bit_or (x / 2) (y / 2) * 2 + max (x % 2) (y % 2)
bit_or_step zero y = simp bit_or-bitwise (omega arith)
bit_or_step (suc x) y = simp bit_or-bitwise (halves (λ y. y) max x y)

no_digits : (to_go x : ℕ) → digits (λ _. 0) min to_go x 0 ≡ 0
no_digits zero x = refl
no_digits (suc to_go) zero = refl
no_digits (suc to_go) (suc x) = omega (arith, no_digits to_go (suc x / 2))

pub bit_and-nought : (x : ℕ) → bit_and x 0 ≡ 0
bit_and-nought x = simp bit_and-bitwise (no_digits x x)
