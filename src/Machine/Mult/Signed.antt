-- ===== src/Machine/Mult/Signed.antt =====
-- Mult of machine/mipssim.cc as a product.
use everything.Base.{
  ℕ, zero, suc, ◌+◌, ◌-◌, ◌*◌, ◌^◌, ◌≤◌, ◌<◌, ◌≡◌, sym, ap, ap₂, ◌∙◌, inl, inr, Bool, true, false,
  ◌||◌, arith, Bool-cases, ◌==◌, if◌then◌else◌,
}
use everything.Machine.Word.{is_negative, signs_differ}
use everything.Machine.Mult.{Product, rounds, complement_product, multiply, magnitude, mult, double}
use everything.Machine.Mult.Digits.{remaining, low_part-eq, remaining-low_part}
use everything.Machine.Mult.Rounds.{value, multiplicand, IsWords, rounds-Computes}

product_le : (x y m : ℕ) → x ≤ m → y ≤ m → x * y ≤ m * m
product_le x y m h k = grind arith

product_lt : (a b : ℕ) → a < 2 ^ 32 → b < 2 ^ 32 → a * b < 2 ^ 64
product_lt a b ha hb = go (product_le a b (2 ^ 32 - 1) (omega arith) (omega arith))
  where
    go : a * b ≤ (2 ^ 32 - 1) * (2 ^ 32 - 1) → a * b < 2 ^ 64
    go h = omega arith

remaining-eq : (a : ℕ) → a < 2 ^ 32 → remaining 32 a ≡ a
remaining-eq a ha = remaining-low_part 32 a (omega arith) ha ∙ low_part-eq 32 a ha

start : ℕ → ℕ → Product
start a b = record { a = a; b_lo = b; b_hi = 0; lo = 0; hi = 0 }

start-rounds :
    (a b : ℕ)
    → a < 2 ^ 32
    → b < 2 ^ 32
    → (value (rounds 32 (start a b)) ≡ a * b) × IsWords (rounds 32 (start a b))
unfolding start
start-rounds a b ha hb =
    let p : remaining 32 a * multiplicand (start a b) ≡ a * b =
      ap₂ ◌*◌ (remaining-eq a ha) (omega arith) in
    let small : 0 + remaining 32 a * multiplicand (start a b) < 2 ^ 64 =
      rw p (omega (arith, product_lt a b ha hb)) in
    let (v, w) =
      rounds-Computes 32 (start a b)
        (record { a = ha; b_lo = hb; b_hi = omega arith; lo = omega arith; hi = omega arith })
        (omega arith) small in
    (v ∙ omega (arith, p), w)

-- The loop multiplies: no carry is lost.
pub multiply-product :
    (a b : ℕ)
    → a < 2 ^ 32
    → b < 2 ^ 32
    → (double (multiply a b) ≡ a * b) × ((multiply a b).0 < 2 ^ 32) × ((multiply a b).1 < 2 ^ 32)
unfolding multiply start
multiply-product a b ha hb = let (v, w) = start-rounds a b ha hb in (v, w.hi, w.lo)

complement_product-double :
    (p : ℕ × ℕ)
    → p.0 < 2 ^ 32
    → p.1 < 2 ^ 32
    → 0 < double p
    → double (complement_product p) ≡ 2 ^ 64 - double p
unfolding complement_product
complement_product-double (hi, lo) h l p = ground arith

mult-zero :
    (a b : ℕ) (signed_arith : Bool) → (a == 0 || b == 0) ≡ true → mult a b signed_arith ≡ (0, 0)
unfolding mult
mult-zero a b signed_arith e = rw e

mult-multiply : (a b : ℕ) → (a == 0 || b == 0) ≡ false → mult a b false ≡ multiply a b
unfolding mult
mult-multiply a b e = rw e

product_zero : (a b : ℕ) → (a == 0 || b == 0) ≡ true → a * b ≡ 0
product_zero a b e = elim (Bool-cases (a == 0)) [
  | inl f ↦ let z : a ≡ 0 = ground arith in rw z (omega arith)
  | inr f ↦ let z : b ≡ 0 = ground arith in rw z (omega arith)
]

-- For two 32-bit patterns, Mult with unsigned arithmetic leaves in HI and LO their product.
mult-unsigned : (a b : ℕ) → a < 2 ^ 32 → b < 2 ^ 32 → double (mult a b false) ≡ a * b
mult-unsigned a b ha hb = elim (Bool-cases (a == 0 || b == 0)) [
  | inl e ↦ ap double (mult-zero a b false e) ∙ sym (product_zero a b e)
  | inr e ↦ ap double (mult-multiply a b e) ∙ (multiply-product a b ha hb).0
]

mult-negated :
    (a b : ℕ)
    → (a == 0 || b == 0) ≡ false
    → mult a b true ≡ (
        if signs_differ a b
        then complement_product (multiply (magnitude true a) (magnitude true b))
        else multiply (magnitude true a) (magnitude true b))
unfolding mult
mult-negated a b e = elim (Bool-cases (is_negative a)) [ inl f ↦ rw (e, f) | inr f ↦ rw (e, f) ]

magnitude-word : (a : ℕ) → a < 2 ^ 32 → magnitude true a < 2 ^ 32
magnitude-word a h = ground arith

magnitude-positive : (a : ℕ) → a < 2 ^ 32 → 0 < a → 0 < magnitude true a
magnitude-positive a h p = ground arith

product_positive : (x y : ℕ) → 0 < x → 0 < y → 0 < x * y
product_positive zero y p q = absurd (omega arith)
product_positive (suc x) zero p q = absurd (omega arith)
product_positive (suc x) (suc y) p q = grind arith

-- For two 32-bit patterns, Mult with signed arithmetic leaves in HI and LO the 64-bit two's
-- complement product: zero if an operand is zero, the product of the magnitudes if the signs agree,
-- and 2 ^ 64 less it if they differ.
pub mult-signed :
    (a b : ℕ)
    → a < 2 ^ 32
    → b < 2 ^ 32
    → double (mult a b true) ≡ (
        if (a == 0 || b == 0)
        then 0
        else if signs_differ a b
        then 2 ^ 64 - magnitude true a * magnitude true b
        else magnitude true a * magnitude true b)
mult-signed a b ha hb = elim (Bool-cases (a == 0 || b == 0)) [
  | inl e ↦ rw e (ap double (mult-zero a b true e))
  | inr e ↦ rw e (ap double (mult-negated a b e) ∙ signs e)
]
  where
    product :
        (double (multiply (magnitude true a) (magnitude true b))
          ≡ magnitude true a * magnitude true b)
        × ((multiply (magnitude true a) (magnitude true b)).0 < 2 ^ 32)
        × ((multiply (magnitude true a) (magnitude true b)).1 < 2 ^ 32)
    product =
        multiply-product (magnitude true a) (magnitude true b) (magnitude-word a ha)
          (magnitude-word b hb)

    positive : (a == 0 || b == 0) ≡ false → 0 < magnitude true a * magnitude true b
    positive e =
        product_positive (magnitude true a) (magnitude true b)
          (magnitude-positive a ha (ground arith)) (magnitude-positive b hb (ground arith))

    negated :
        (a == 0 || b == 0) ≡ false
        → double (complement_product (multiply (magnitude true a) (magnitude true b)))
          ≡ 2 ^ 64 - magnitude true a * magnitude true b
    negated e =
        complement_product-double (multiply (magnitude true a) (magnitude true b)) product.1
          product.2 (rw product.0 (positive e))
        ∙ ap (λ (t : ℕ). 2 ^ 64 - t) product.0

    signs :
        (a == 0 || b == 0) ≡ false
        → double (
            if signs_differ a b
            then complement_product (multiply (magnitude true a) (magnitude true b))
            else multiply (magnitude true a) (magnitude true b))
          ≡ (if signs_differ a b
              then 2 ^ 64 - magnitude true a * magnitude true b
              else magnitude true a * magnitude true b)
    signs e = elim (Bool-cases (signs_differ a b)) [
      | inl f ↦ rw f (negated e)
      | inr f ↦ rw f product.0
    ]
