-- ===== src/Machine/Mult/Digits.antt =====
-- The bits of the multiplier that the loop of Mult in machine/mipssim.cc reads.
use everything.Base.{
  ℕ, zero, suc, ◌+◌, ◌*◌, ◌/◌, ◌%◌, ◌^◌, ◌≤◌, ◌<◌, ◌≡◌, refl, ap, ◌⊎◌, inl, inr, arith, Bool-cases,
}
use native.Mathlib.Nat.{pow-suc}
use everything.Machine.Word.{is_negative, sar32}

-- The bits of `a` that the rounds left will look at, as a number.
unfoldable pub remaining : ℕ → ℕ → ℕ
remaining zero a = 0
remaining (suc left) a = a % 2 + 2 * remaining left (sar32 a 1)

-- The number that the `l` low bits of `a` make.
pub low_part : ℕ → ℕ → ℕ
low_part zero a = 0
low_part (suc l) a = a % 2 + 2 * low_part l (a / 2)

pub low_part-eq : (l a : ℕ) → a < 2 ^ l → low_part l a ≡ a
unfolding low_part
low_part-eq zero a h = omega arith
low_part-eq (suc l) a h =
    omega (arith, pow-suc 2 l, low_part-eq l (a / 2) (omega (arith, pow-suc 2 l)))

low_part-add_pow : (l m x : ℕ) → l ≤ m → low_part l (x + 2 ^ m) ≡ low_part l x
unfolding low_part
low_part-add_pow zero m x h = refl
low_part-add_pow (suc l) zero x h = absurd (omega arith)
low_part-add_pow (suc l) (suc m) x h =
    let e : (x + 2 ^ suc m) / 2 ≡ x / 2 + 2 ^ m = omega (arith, pow-suc 2 m) in
    let p : (x + 2 ^ suc m) % 2 ≡ x % 2 = omega (arith, pow-suc 2 m) in
    rw (e, p, low_part-add_pow l m (x / 2) (omega arith))

sar-one : (a : ℕ) → a < 2 ^ 32 → (sar32 a 1 ≡ a / 2) ⊎ (sar32 a 1 ≡ a / 2 + 2 ^ 31)
sar-one a h = elim (Bool-cases (is_negative a)) [
  | inl n ↦ inr (ground arith)
  | inr p ↦ inl (ground arith)
]

pub remaining-low_part : (l a : ℕ) → l ≤ 32 → a < 2 ^ 32 → remaining l a ≡ low_part l a
unfolding remaining low_part
remaining-low_part zero a h w = refl
remaining-low_part (suc l) a h w = elim (sar-one a w) [
  | inl e ↦
      omega (arith, remaining-low_part l (sar32 a 1) (omega arith) (omega arith), ap (low_part l) e)
  | inr e ↦ omega (
    arith,
    remaining-low_part l (sar32 a 1) (omega arith) (omega arith),
    ap (low_part l) e,
    low_part-add_pow l 31 (a / 2) (omega arith),
  )
]

pub remaining-zero : (l : ℕ) → remaining l 0 ≡ 0
unfolding remaining
remaining-zero zero = refl
remaining-zero (suc l) = omega (arith, remaining-zero l)

pub remaining-small : (l a : ℕ) → a / 2 ≡ 0 → remaining (suc l) a ≡ a % 2
unfolding remaining
remaining-small l a h =
    let e : sar32 a 1 ≡ 0 = ground arith in omega (arith, ap (remaining l) e, remaining-zero l)

pub remaining-suc : (l a : ℕ) → remaining (suc l) a ≡ a % 2 + 2 * remaining l (sar32 a 1)
unfolding remaining
remaining-suc l a = refl
