-- ===== src/Machine/Word.antt =====
-- 32-bit arithmetic on patterns.
use everything.Base.{ℕ, ◌+◌, ◌-◌, ◌*◌, ◌/◌, ◌%◌, ◌^◌, Bool, not, ltb, leb, if◌then◌else◌}

abbrev pub word : ℕ → ℕ
word n = n % 2 ^ 32

abbrev pub add32 : ℕ → ℕ → ℕ
add32 a b = (a + b) % 2 ^ 32

abbrev pub sub32 : ℕ → ℕ → ℕ
sub32 a b = (a + 2 ^ 32 - b) % 2 ^ 32

abbrev pub not32 : ℕ → ℕ
not32 a = 2 ^ 32 - 1 - a

-- The number that a pattern stands for is negative.
abbrev pub is_negative : ℕ → Bool
is_negative a = leb (2 ^ 31) a

-- -a
abbrev pub neg32 : ℕ → ℕ
neg32 a = (2 ^ 32 - a) % 2 ^ 32

-- a << k
abbrev pub shl32 : ℕ → ℕ → ℕ
shl32 a k = (a * 2 ^ k) % 2 ^ 32

-- a >> k of an `unsigned`.
abbrev pub shr32 : ℕ → ℕ → ℕ
shr32 a k = a / 2 ^ k

-- a >> k of an `int`, which copies the sign.
abbrev pub sar32 : ℕ → ℕ → ℕ
sar32 a k = if is_negative a then not32 (not32 a / 2 ^ k) else a / 2 ^ k

-- a < b of two `int`s.
abbrev pub slt32 : ℕ → ℕ → Bool
slt32 a b = ltb ((a + 2 ^ 31) % 2 ^ 32) ((b + 2 ^ 31) % 2 ^ 32)

-- A number of `w` bits whose top bit is its sign, as an `int`.
abbrev pub sign_extend : ℕ → ℕ → ℕ
sign_extend w a = if ltb a (2 ^ (w - 1)) then a else a + 2 ^ 32 - 2 ^ w

-- (a ^ b) & SIGN_BIT
abbrev pub signs_differ : ℕ → ℕ → Bool
signs_differ a b = if is_negative b then not (is_negative a) else is_negative a
