-- ===== src/Base/Bits.antt =====
-- Machine words: single bits, and the native `&`, `|`, `^` and complement in terms of them.
mod Step
use Step.{bit_or_step, bit_and_step, bit_and-nought}
use Prim.Native.Nat.{ℕ, zero, suc, ◌+◌, ◌-◌, ◌*◌, ◌/◌, ◌%◌, ◌^◌, ◌≤◌, ◌<◌, min, max}
use Prim.Native.Nat.{bit_and, bit_or}
use mathlib.Core.Path.{◌≡◌, refl, ap}
use mathlib.Core.Logic.{◌≢◌}
use native.Mathlib.Nat.{pow-suc, one-le-pow}
use native.Mathlib.Omega.{arith}

-- Bit `k` of `a`, by halving.
abbrev pub bit : ℕ → ℕ → ℕ
bit a zero = a % 2
bit a (suc k) = bit (a / 2) k

pub bit-lt_two : (a k : ℕ) → bit a k < 2
bit-lt_two a zero = omega arith
bit-lt_two a (suc k) = bit-lt_two (a / 2) k

pub bit-zero : (k : ℕ) → bit 0 k ≡ 0
bit-zero zero = refl
bit-zero (suc k) = bit-zero k

pub bit-bit_or : (a b k : ℕ) → bit (bit_or a b) k ≡ max (bit a k) (bit b k)
bit-bit_or a b zero = omega (arith, bit_or_step a b)
bit-bit_or a b (suc k) =
    let e : bit_or a b / 2 ≡ bit_or (a / 2) (b / 2) = omega (arith, bit_or_step a b) in
    rw e (bit-bit_or (a / 2) (b / 2) k)

pub bit-bit_and : (a b k : ℕ) → bit (bit_and a b) k ≡ min (bit a k) (bit b k)
bit-bit_and a b zero = omega (arith, bit_and_step a b)
bit-bit_and a b (suc k) =
    let e : bit_and a b / 2 ≡ bit_and (a / 2) (b / 2) = omega (arith, bit_and_step a b) in
    rw e (bit-bit_and (a / 2) (b / 2) k)

half-pow : (k : ℕ) → 2 ^ suc k / 2 ≡ 2 ^ k
half-pow k = omega (arith, pow-suc 2 k)

pub bit-pow_self : (k : ℕ) → bit (2 ^ k) k ≡ 1
bit-pow_self zero = refl
bit-pow_self (suc k) = rw (half-pow k) (bit-pow_self k)

pub bit-pow_ne : (j k : ℕ) → j ≢ k → bit (2 ^ j) k ≡ 0
bit-pow_ne zero zero h = absurd (h refl)
bit-pow_ne zero (suc k) h = bit-zero k
bit-pow_ne (suc j) zero h = omega (arith, pow-suc 2 j)
bit-pow_ne (suc j) (suc k) h = rw (half-pow j) (bit-pow_ne j k (λ e. h (ap suc e)))

-- `~x` in a word of `w` bits.
abbrev pub complement : ℕ → ℕ → ℕ
complement w x = 2 ^ w - 1 - x

pub bit-complement : (w x k : ℕ) → x < 2 ^ w → k < w → bit (complement w x) k + bit x k ≡ 1
bit-complement zero x k h l = absurd (omega arith)
bit-complement (suc w) x zero h l = omega (arith, pow-suc 2 w)
bit-complement (suc w) x (suc k) h l =
    let e : complement (suc w) x / 2 ≡ complement w (x / 2) = omega (arith, pow-suc 2 w) in
    rw e (bit-complement w (x / 2) k (omega (arith, pow-suc 2 w)) (omega arith))

-- The test `a & (1 << k)`.
pub bit_and-pow : (k a : ℕ) → bit_and a (2 ^ k) ≡ bit a k * 2 ^ k
bit_and-pow zero a = omega (arith, bit_and_step a 1, bit_and-nought (a / 2))
bit_and-pow (suc k) a =
    let e : 2 ^ suc k / 2 ≡ 2 ^ k = half-pow k in
    omega (
      arith,
      bit_and_step a (2 ^ suc k),
      ap (λ (t : ℕ). bit_and (a / 2) t) e,
      bit_and-pow k (a / 2),
      pow-suc 2 k,
      ap (λ (t : ℕ). bit (a / 2) k * t) (pow-suc 2 k),
    )

pub pow-lt : (k w : ℕ) → k < w → 2 ^ k < 2 ^ w
pow-lt k zero h = absurd (omega arith)
pow-lt zero (suc w) h = omega (arith, pow-suc 2 w, one-le-pow w 2)
pow-lt (suc k) (suc w) h = omega (arith, pow-suc 2 w, pow-suc 2 k, pow-lt k w (omega arith))
