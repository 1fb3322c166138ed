-- ===== src/Machine/Mult.antt =====
-- Mult of machine/mipssim.cc: the multiplication of the R2000, bit by bit.
pub mod Digits
pub mod Rounds
pub mod Signed
use everything.Base.{
  ℕ, zero, suc, ◌+◌, ◌-◌, ◌*◌, ◌/◌, ◌%◌, ◌^◌, ◌≤◌, ◌<◌, ◌≡◌, refl, sym, ap, ap₂, ◌∙◌, Bool, true,
  false, not, ◌&&◌, ◌||◌, inl, inr, ◌⊎◌, ltb, leb, ◌==◌, if◌then◌else◌, arith, Bool-cases,
}
use native.Mathlib.Nat.{pow-suc, one-le-pow}
use everything.Machine.Word.{add32, not32, neg32, is_negative, sar32, signs_differ}

-- The locals of Mult that its loop changes.
pub record Product : Type 0 where
  pub a : ℕ
  pub b_lo : ℕ
  pub b_hi : ℕ
  pub lo : ℕ
  pub hi : ℕ

-- What a round does if the lowest bit of `a` is set: a double addition, with the carry.
pub accumulate : Product → Product
accumulate s =
    let lo : ℕ = add32 s.lo s.b_lo in
    let carried : ℕ = if ltb lo s.b_lo then add32 s.hi 1 else s.hi in
    record s { lo = lo; hi = add32 carried s.b_hi }

-- The shifts that end a round. `a` is an `int`, so its sign is copied.
pub shift : Product → Product
shift s = record s {
  a = sar32 s.a 1;
  b_lo = (s.b_lo * 2) % 2 ^ 32;
  b_hi = (s.b_hi * 2) % 2 ^ 32 + (if leb (2 ^ 31) s.b_lo then 1 else 0);
}

-- The loop, with the rounds left; `a & 1` is the remainder by 2, and `(a & 0xfffffffe) == 0` says
-- that no other bit is set.
pub rounds : ℕ → Product → Product
unfolding accumulate shift
rounds zero s = s
rounds (suc left) s =
    let added : Product = accumulate s in
    let next = rounds left (shift added) in
    let skip = rounds left (shift s) in
    if s.a % 2 == 1 then (if s.a / 2 == 0 then added else next) else skip

-- Two's complement of the double word, as `hi` and `lo`.
pub complement_product : ℕ × ℕ → ℕ × ℕ
complement_product (hi, lo) =
    let hi' : ℕ = not32 hi in
    let lo' : ℕ = add32 (not32 lo) 1 in (if lo' == 0 then add32 hi' 1 else hi', lo')

-- The unsigned product by the loop.
pub multiply : ℕ → ℕ → ℕ × ℕ
unfolding rounds
multiply a b =
    let s = rounds 32 (record { a = a; b_lo = b; b_hi = 0; lo = 0; hi = 0 }) in (s.hi, s.lo)

abbrev pub magnitude : Bool → ℕ → ℕ
magnitude signed_arith a = if signed_arith && is_negative a then neg32 a else a

-- Mult, with `*hiPtr` and `*loPtr` as the result.
pub mult : ℕ → ℕ → Bool → ℕ × ℕ
mult a b signed_arith =
    if a == 0 || b == 0
    then (0, 0)
    else (let first : Bool = if signed_arith && is_negative a then true else false in
        let negative : Bool = if signed_arith && is_negative b then not first else first in
        let product = multiply (magnitude signed_arith a) (magnitude signed_arith b) in
        if negative then complement_product product else product)

-- The double word `hi`:`lo`.
abbrev pub double : ℕ × ℕ → ℕ
double (hi, lo) = hi * 2 ^ 32 + lo
