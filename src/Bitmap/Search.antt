-- ===== src/Bitmap/Search.antt =====
-- The loops of the Bitmap constructor, FindAndSet and NumClear.
use everything.Base.{
  ℕ, zero, suc, ◌+◌, ◌/◌, ◌%◌, ◌<◌, ◌≡◌, refl, ◌∙◌, ap, true, false, Option, none, some, arith, ltb,
  ◌==◌, if◌then◌else◌, Bool-cases, ◌⊎◌, inl, inr, replicate, length-replicate, get_or-replicate,
}
use native.Mathlib.Numerals.{add-one}
use everything.Base.Bits.{bit-zero}
use everything.Bitmap.{
  Bitmap, div_round_up, clear_from, new, find_from, find_and_set, num_clear_from, num_clear,
}
use everything.Bitmap.View.{IsValid, is_marked, test-is_marked, mark-Changed, clear-Changed}

-- Index `at` was the first clear one, and it alone was marked.
pub record FirstClear (b : Bitmap) (result : Option (Option ℕ × Bitmap)) : Type 0 where
  pub at : ℕ
  pub out : Bitmap
  pub returns : result ≡ some (some at, out)
  pub in_range : at < b.num_bits
  pub was_clear : is_marked b at ≡ false
  pub below : (j : ℕ) → j < at → is_marked b j ≡ true
  pub valid : IsValid out
  pub same_size : out.num_bits ≡ b.num_bits
  pub bits : (j : ℕ) → is_marked out j ≡ (if at == j then true else is_marked b j)

-- The search found no clear index and left the bitmap alone.
pub record Full (b : Bitmap) (result : Option (Option ℕ × Bitmap)) : Type 0 where
  pub returns : result ≡ some (none, b)
  pub all_marked : (j : ℕ) → j < b.num_bits → is_marked b j ≡ true

abbrev pub Searched : Bitmap → Option (Option ℕ × Bitmap) → Type 0
Searched b r = FirstClear b r ⊎ Full b r

find_here :
    (left i : ℕ) (b : Bitmap)
    → IsValid b
    → i < b.num_bits
    → is_marked b i ≡ false
    → ((j : ℕ) → j < i → is_marked b j ≡ true)
    → FirstClear b (find_from (suc left) i b)
unfolding find_from
find_here left i b v h free low =
    let m = mark-Changed b i v h in
    record {
      at = i;
      out = m.out;
      returns = rw (test-is_marked b i v h, free, m.returns);
      in_range = h;
      was_clear = free;
      below = low;
      valid = m.valid;
      same_size = m.same_size;
      bits = m.bits;
    }

find_next :
    (left i : ℕ) (b : Bitmap)
    → IsValid b
    → i < b.num_bits
    → is_marked b i ≡ true
    → find_from (suc left) i b ≡ find_from left (i + 1) b
unfolding find_from
find_next left i b v h used = rw (test-is_marked b i v h, used)

find_from-Searched :
    (left i : ℕ) (b : Bitmap)
    → IsValid b
    → i + left ≡ b.num_bits
    → ((j : ℕ) → j < i → is_marked b j ≡ true)
    → Searched b (find_from left i b)
find_from-Searched zero i b v e low =
    inr (record { returns = unfold find_from in refl; all_marked = λ j h. low j (omega arith) })
find_from-Searched (suc left) i b v e low = elim (Bool-cases (is_marked b i)) [
  | inl used ↦ rw (find_next left i b v (omega arith) used) (
      find_from-Searched left (i + 1) b v (omega arith)
        (λ j h. ground (arith, low j, used, ap (is_marked b) {x = i} {y = j})))
  | inr free ↦ inl (find_here left i b v (omega arith) free low)
]

-- On a bitmap whose storage fits its size, FindAndSet returns the least clear index and the bitmap
-- with that index alone newly marked, or -1 and the bitmap unchanged, and then every index is
-- marked.
pub find_and_set-Searched : (b : Bitmap) → IsValid b → Searched b (find_and_set b)
unfolding find_and_set
find_and_set-Searched b v =
    find_from-Searched b.num_bits 0 b v (omega arith) (λ j h. absurd (omega arith))

-- How many indices below `n` are clear.
pub count_clear : Bitmap → ℕ → ℕ
count_clear b zero = 0
count_clear b (suc n) = if is_marked b n then count_clear b n else count_clear b n + 1

count_clear_next :
    (b : Bitmap) (i : ℕ)
    → count_clear b (i + 1) ≡ (if is_marked b i then count_clear b i else count_clear b i + 1)
unfolding count_clear
count_clear_next b i = rw (add-one i)

num_clear_from-count :
    (left i count : ℕ) (b : Bitmap)
    → IsValid b
    → i + left ≡ b.num_bits
    → count ≡ count_clear b i
    → num_clear_from left i count b ≡ some (count_clear b b.num_bits)
unfolding num_clear_from
num_clear_from-count zero i count b v e h = ap some (h ∙ ap (count_clear b) (omega arith))
num_clear_from-count (suc left) i count b v e h = rw (test-is_marked b i v (omega arith)) (
    num_clear_from-count left (i + 1) _ b v (omega arith) (ground (arith, h, count_clear_next b i)))

pub num_clear-count : (b : Bitmap) → IsValid b → num_clear b ≡ some (count_clear b b.num_bits)
unfolding num_clear
num_clear-count b v =
    num_clear_from-count b.num_bits 0 0 b v (omega arith) (unfold count_clear in refl)

-- Marking a clear index leaves one clear index less.
count_clear-Changed :
    (b b' : Bitmap) (i n : ℕ)
    → is_marked b i ≡ false
    → ((j : ℕ) → is_marked b' j ≡ (if i == j then true else is_marked b j))
    → count_clear b n ≡ count_clear b' n + (if ltb i n then 1 else 0)
unfolding count_clear
count_clear-Changed b b' i zero free bits = ground arith
count_clear-Changed b b' i (suc n) free bits =
    ground (arith, bits n, count_clear-Changed b b' i n free bits, ap (is_marked b) {x = i} {y = n})

-- On a bitmap whose storage fits its size, if FindAndSet returns an index then NumClear counted one
-- more before it than after it, and at least one.
num_clear-find_and_set :
    (b b' : Bitmap) (i : ℕ)
    → IsValid b
    → find_and_set b ≡ some (some i, b')
    → (n : ℕ) × (num_clear b ≡ some (suc n)) × (num_clear b' ≡ some n)
num_clear-find_and_set b b' i v e = go (find_and_set-Searched b v)
  where
    go :
        Searched b (find_and_set b)
        → (n : ℕ) × (num_clear b ≡ some (suc n)) × (num_clear b' ≡ some n)
    go (inr full) = absurd (cc (full.returns))
    go (inl f) =
        let same : f.out ≡ b' = ground (arith, f.returns) in
        let counted = count_clear-Changed b f.out f.at b.num_bits f.was_clear f.bits in
        (
          count_clear f.out f.out.num_bits,
          ground (
            arith,
            num_clear-count b v,
            counted,
            f.in_range,
            f.same_size,
            ap (count_clear f.out) f.same_size,
          ),
          rw (← same) (num_clear-count f.out f.valid),
        )

blank-is_marked :
    (n bits i : ℕ)
    → is_marked (record { num_bits = bits; num_words = n; map = replicate n 0 }) i ≡ false
blank-is_marked n bits i = rw (get_or-replicate {A = ℕ} n (i / 32) 0, bit-zero (i % 32))

-- What the constructor promises.
record IsBlank (n : ℕ) (result : Option Bitmap) : Type 0 where
  out : Bitmap
  returns : result ≡ some out
  valid : IsValid out
  size : out.num_bits ≡ n
  all_clear : (j : ℕ) → is_marked out j ≡ false

clear_from-IsBlank :
    (left i : ℕ) (b : Bitmap)
    → IsValid b
    → i + left ≡ b.num_bits
    → ((j : ℕ) → is_marked b j ≡ false)
    → IsBlank b.num_bits (clear_from left i b)
unfolding clear_from
clear_from-IsBlank zero i b v e h = record {
  out = b;
  returns = refl;
  valid = v;
  size = refl;
  all_clear = h;
}
clear_from-IsBlank (suc left) i b v e h =
    let c = clear-Changed b i v (omega arith) in
    let rest =
      clear_from-IsBlank left (i + 1) c.out c.valid (omega (arith, c.same_size))
        (λ j. ground (arith, c.bits j, h j)) in
    record {
      out = rest.out;
      returns = rw c.returns rest.returns;
      valid = rest.valid;
      size = rest.size ∙ c.same_size;
      all_clear = rest.all_clear;
    }

-- The constructor with a positive size succeeds, with storage that fits the size and no index
-- marked.
new-IsBlank : (n : ℕ) → 0 < n → IsBlank n (new n)
unfolding new
new-IsBlank n h =
    let words : ℕ = div_round_up n 32 in
    let start : Bitmap = record { num_bits = n; num_words = words; map = replicate words 0 } in
    let v : IsValid start = record { sized = refl; stored = length-replicate words 0 } in
    let rest = clear_from-IsBlank n 0 start v (omega arith) (blank-is_marked words n) in
    record {
      out = rest.out;
      returns = ground (arith, rest.returns);
      valid = rest.valid;
      size = rest.size;
      all_clear = rest.all_clear;
    }
