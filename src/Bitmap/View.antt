-- ===== src/Bitmap/View.antt =====
-- A bitmap as the set of its marked indices: what Test, Mark and Clear do to one bit and to the rest.
use everything.Base.{
  ℕ, ◌*◌, ◌/◌, ◌%◌, ◌^◌, ◌<◌, bit_and, bit_or, ◌≡◌, refl, ◌≢◌, Bool, true, false, not, Option, some,
  arith, ◌==◌, if◌then◌else◌, length, get_or, set, length-set, get_or-set_self, get_or-set_ne,
  get_elem?-eq-get_or, Bool-cases, ap, inl, inr, sym,
}
use everything.Base.Bits.{
  bit, complement, bit-lt_two, bit-bit_or, bit-bit_and, bit-pow_self, bit-pow_ne, bit-complement,
  bit_and-pow, pow-lt,
}
use everything.Bitmap.{Bitmap, div_round_up, test, mark, clear}
use native.Mathlib.Nat.{one-le-pow}

-- The number of words fits the number of bits, and the storage has that many words.
pub record IsValid (b : Bitmap) : Type 0 where
  pub sized : b.num_words ≡ div_round_up b.num_bits 32
  pub stored : length b.map ≡ b.num_words

-- Index `i` is marked.
abbrev pub is_marked : Bitmap → ℕ → Bool
is_marked b i = bit (get_or b.map (i / 32) 0) (i % 32) == 1

word_in_range : (b : Bitmap) (i : ℕ) → IsValid b → i < b.num_bits → i / 32 < length b.map
word_in_range b i v h = ground arith

-- The test of a word against a mask of one bit.
mask_test : (w k : ℕ) → not (bit_and w (2 ^ k) == 0) ≡ (bit w k == 1)
mask_test w k = elim (Bool-cases (bit w k == 1)) [
  | inl e ↦ ground (arith, bit_and-pow k w, one-le-pow k 2, ap (λ (t : ℕ). t * 2 ^ k) (one e))
  | inr e ↦ ground (arith, bit_and-pow k w, ap (λ (t : ℕ). t * 2 ^ k) (nought e))
]
  where
    one : (bit w k == 1) ≡ true → bit w k ≡ 1
    one e = ground arith

    nought : (bit w k == 1) ≡ false → bit w k ≡ 0
    nought e = ground (arith, bit-lt_two w k)

pub test-is_marked :
    (b : Bitmap) (i : ℕ) → IsValid b → i < b.num_bits → test b i ≡ some (is_marked b i)
unfolding test
test-is_marked b i v h = ground (
  arith,
  word_in_range b i v h,
  get_elem?-eq-get_or b.map (i / 32) 0,
  mask_test (get_or b.map (i / 32) 0) (i % 32),
)

same_place : (i j : ℕ) → i / 32 ≡ j / 32 → i % 32 ≡ j % 32 → i ≡ j
same_place i j p q = omega arith

-- The bitmap with word `i / 32` replaced.
abbrev write_word : Bitmap → ℕ → ℕ → Bitmap
write_word b i w = record b { map = set b.map (i / 32) w }

write_word-IsValid : (b : Bitmap) (i w : ℕ) → IsValid b → IsValid (write_word b i w)
write_word-IsValid b i w v = ground (arith, length-set b.map (i / 32) w)

-- A change of one bit of a word is a change of one index.
write_bit :
    (b : Bitmap) (i j w x : ℕ)
    → IsValid b
    → i < b.num_bits
    → bit w (i % 32) ≡ x
    → ((k : ℕ) → k ≢ i % 32 → k < 32 → bit w k ≡ bit (get_or b.map (i / 32) 0) k)
    → is_marked (write_word b i w) j ≡ (if i == j then x == 1 else is_marked b j)
write_bit b i j w x v h here there = ground (
  arith,
  same_place i j,
  word_in_range b i v h,
  get_or-set_self b.map (i / 32) w 0,
  get_or-set_ne b.map (i / 32) (j / 32) w 0,
  there (j % 32),
)

-- What an operation on one bit promises: it succeeds, bit `i` gets the value `x`, the other bits,
-- the size and the invariant stay.
pub record Changed (b : Bitmap) (i : ℕ) (x : Bool) (result : Option Bitmap) : Type 0 where
  pub out : Bitmap
  pub returns : result ≡ some out
  pub valid : IsValid out
  pub same_size : out.num_bits ≡ b.num_bits
  pub bits : (j : ℕ) → is_marked out j ≡ (if i == j then x else is_marked b j)

-- On a bitmap whose storage fits its size, Mark of an index below the size succeeds, passes its own
-- ASSERT, and marks that index and no other; the size stays and the storage still fits it.
pub mark-Changed : (b : Bitmap) (i : ℕ) → IsValid b → i < b.num_bits → Changed b i true (mark b i)
unfolding mark
mark-Changed b i v h =
    let w : ℕ = get_or b.map (i / 32) 0 in
    let w' : ℕ = bit_or w (2 ^ (i % 32)) in
    let b' : Bitmap = write_word b i w' in
    let here : bit w' (i % 32) ≡ 1 =
      omega (
        arith,
        bit-bit_or w (2 ^ (i % 32)) (i % 32),
        bit-pow_self (i % 32),
        bit-lt_two w (i % 32),
      ) in
    let after = λ (j : ℕ). write_bit b i j w' 1 v h here (λ k ne l.
      omega (arith, bit-bit_or w (2 ^ (i % 32)) k, bit-pow_ne (i % 32) k (λ e. ne (sym e)))) in
    record {
      out = b';
      returns = ground (
        arith,
        word_in_range b i v h,
        get_elem?-eq-get_or b.map (i / 32) 0,
        test-is_marked b' i (write_word-IsValid b i w' v) h,
        after i,
      );
      valid = write_word-IsValid b i w' v;
      same_size = refl;
      bits = after;
    }

-- On a bitmap whose storage fits its size, Clear of an index below the size succeeds, passes its
-- own ASSERT, and clears that index and no other; the size stays and the storage still fits it.
pub clear-Changed :
    (b : Bitmap) (i : ℕ) → IsValid b → i < b.num_bits → Changed b i false (clear b i)
unfolding clear
clear-Changed b i v h =
    let w : ℕ = get_or b.map (i / 32) 0 in
    let m : ℕ = complement 32 (2 ^ (i % 32)) in
    let w' : ℕ = bit_and w m in
    let b' : Bitmap = write_word b i w' in
    let small = pow-lt (i % 32) 32 (omega arith) in
    let here : bit w' (i % 32) ≡ 0 = omega (
      arith,
      bit-bit_and w m (i % 32),
      bit-complement 32 (2 ^ (i % 32)) (i % 32) small (omega arith),
      bit-pow_self (i % 32),
    ) in
    let after = λ (j : ℕ). write_bit b i j w' 0 v h here (λ k ne l. omega (
      arith,
      bit-bit_and w m k,
      bit-complement 32 (2 ^ (i % 32)) k small l,
      bit-pow_ne (i % 32) k (λ e. ne (sym e)),
      bit-lt_two w k,
    )) in
    record {
      out = b';
      returns = ground (
        arith,
        word_in_range b i v h,
        get_elem?-eq-get_or b.map (i / 32) 0,
        test-is_marked b' i (write_word-IsValid b i w' v) h,
        after i,
      );
      valid = write_word-IsValid b i w' v;
      same_size = refl;
      bits = after;
    }
