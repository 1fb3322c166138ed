-- ===== src/Machine/Execute/Arithmetic.antt =====
-- The arithmetic cases of the switch of machine/mipssim.cc.
use everything.Base.{
  ℕ, zero, suc, ◌+◌, ◌*◌, ◌/◌, ◌%◌, ◌^◌, ◌≤◌, ◌<◌, ◌≡◌, ◌≢◌, ◌∙◌, ◌⊎◌, refl, inl, inr, true, false,
  not, ◌&&◌, length, get_or-set_self, get_or-set_ne, length-set, ◌==◌, if◌then◌else◌, arith,
  Bool-cases,
}
use native.Mathlib.Nat.{pow-suc, one-le-pow}
use everything.Machine.{Machine, Outcome, trap, overflow_exception, reg, set_reg}
use everything.Machine.Word.{add32, sub32, sar32, shr32, signs_differ, is_negative, not32}
use everything.Machine.Instruction.{Instruction, op_add, op_addi, op_sub, op_divu, op_srl}
use everything.Machine.Execute.{
  Next, execute, add_checked, sub_checked, divide_unsigned, put, put_hi_lo, go_on, after, lo_reg,
  hi_reg,
}

-- The `int` that a pattern stands for, plus 2 ^ 31.
abbrev pub biased : ℕ → ℕ
biased a = (a + 2 ^ 31) % 2 ^ 32

-- What is promised of a sum: a trap if it does not fit an `int`, else the sum.
abbrev pub Summed : Machine → ℕ → ℕ → ℕ → Outcome Next → Type 0
Summed m r a b o =
    let total : ℕ = biased a + biased b in
    (total < 2 ^ 31 ⊎ (3 * 2 ^ 31 ≤ total)) × (o ≡ trap overflow_exception 0 m)
    ⊎ (sum : ℕ) × (sum < 2 ^ 32) × (biased sum + 2 ^ 31 ≡ total) × (o ≡ put m r sum)

sum-cases :
    (a b tested : ℕ)
    → a < 2 ^ 32
    → b < 2 ^ 32
    → (tested ≡ a) ⊎ (tested ≡ b)
    → ((not (signs_differ a b) && signs_differ tested (add32 a b)) ≡ true)
        × ((biased a + biased b < 2 ^ 31) ⊎ (3 * 2 ^ 31 ≤ biased a + biased b))
      ⊎ ((not (signs_differ a b) && signs_differ tested (add32 a b)) ≡ false)
        × (biased (add32 a b) + 2 ^ 31 ≡ biased a + biased b)
sum-cases a b tested ha hb (inl e) = rw e (ground arith)
sum-cases a b tested ha hb (inr e) = rw e (ground arith)

add_checked-Summed :
    (m : Machine) (r a b tested : ℕ)
    → a < 2 ^ 32
    → b < 2 ^ 32
    → (tested ≡ a) ⊎ (tested ≡ b)
    → Summed m r a b (add_checked m r a b tested)
unfolding add_checked
add_checked-Summed m r a b tested ha hb t = elim (sum-cases a b tested ha hb t) [
  | inl (e, out) ↦ inl (out, rw e)
  | inr (e, fits) ↦ inr (add32 a b, omega arith, fits, rw e)
]

-- For operands of 32 bits, ADD and ADDI trap with OverflowException exactly if the sum of the two
-- as ints does not fit an int, and otherwise write the register whose int is the sum.
add-Summed :
    (m : Machine) (i : Instruction)
    → reg m i.rs < 2 ^ 32
    → reg m i.rt < 2 ^ 32
    → i.extra < 2 ^ 32
    → Summed m i.rd (reg m i.rs) (reg m i.rt) (execute op_add m i)
      × Summed m i.rt (reg m i.rs) i.extra (execute op_addi m i)
unfolding execute
add-Summed m i hs ht he = (
  add_checked-Summed m i.rd (reg m i.rs) (reg m i.rt) (reg m i.rs) hs ht (inl refl),
  add_checked-Summed m i.rt (reg m i.rs) i.extra i.extra hs he (inr refl),
)

-- What is promised of a difference.
abbrev pub Subtracted : Machine → ℕ → ℕ → ℕ → Outcome Next → Type 0
Subtracted m r a b o =
    let lifted : ℕ = biased a + 2 ^ 31 in
    ((lifted < biased b) ⊎ (biased b + 2 ^ 32 ≤ lifted)) × (o ≡ trap overflow_exception 0 m)
    ⊎ (diff : ℕ) × (diff < 2 ^ 32) × (biased diff + biased b ≡ lifted) × (o ≡ put m r diff)

difference-cases :
    (a b : ℕ)
    → a < 2 ^ 32
    → b < 2 ^ 32
    → ((signs_differ a b && signs_differ a (sub32 a b)) ≡ true)
        × ((biased a + 2 ^ 31 < biased b) ⊎ (biased b + 2 ^ 32 ≤ biased a + 2 ^ 31))
      ⊎ ((signs_differ a b && signs_differ a (sub32 a b)) ≡ false)
        × (biased (sub32 a b) + biased b ≡ biased a + 2 ^ 31)
difference-cases a b ha hb = ground arith

-- For operands of 32 bits, SUB traps with OverflowException exactly if the difference of the two as
-- ints does not fit an int, and otherwise writes the register whose int is the difference.
sub-Subtracted :
    (m : Machine) (i : Instruction)
    → reg m i.rs < 2 ^ 32
    → reg m i.rt < 2 ^ 32
    → Subtracted m i.rd (reg m i.rs) (reg m i.rt) (execute op_sub m i)
unfolding execute sub_checked
sub-Subtracted m i hs ht = elim (difference-cases (reg m i.rs) (reg m i.rt) hs ht) [
  | inl (e, out) ↦ inl (out, rw e)
  | inr (e, fits) ↦ inr (sub32 (reg m i.rs) (reg m i.rt), omega arith, fits, rw e)
]

half-le : (x p : ℕ) → 2 ≤ p → x / p ≤ x / 2
half-le x p h = grind arith

shifted-negative :
    (x k : ℕ)
    → is_negative x ≡ true
    → x < 2 ^ 32
    → 0 < k
    → (is_negative (sar32 x k) ≡ true) × (is_negative (shr32 x k) ≡ false)
shifted-negative x zero n h p = absurd (omega arith)
shifted-negative x (suc k) n h p =
    let two : 2 ≤ 2 ^ suc k = omega (arith, pow-suc 2 k, one-le-pow k 2) in
    go (2 ^ suc k) two (half-le x (2 ^ suc k) two) (half-le (not32 x) (2 ^ suc k) two)
  where
    go :
        (p : ℕ)
        → 2 ≤ p
        → x / p ≤ x / 2
        → not32 x / p ≤ not32 x / 2
        → (is_negative (if is_negative x then not32 (not32 x / p) else x / p) ≡ true)
          × (is_negative (x / p) ≡ false)
    go p two a b = (rw n (ground arith), ground arith)

-- SRL by at least one place of a 32-bit word with its top bit set writes a word with its top bit
-- set, while the logical shift of that word has it clear.
pub srl-negative :
    (m : Machine) (i : Instruction)
    → is_negative (reg m i.rt) ≡ true
    → reg m i.rt < 2 ^ 32
    → 0 < i.extra
    → (v : ℕ) × (execute op_srl m i ≡ put m i.rd v)
      × (is_negative v ≡ true)
      × (is_negative (shr32 (reg m i.rt) i.extra) ≡ false)
unfolding execute
srl-negative m i n h p =
    let s = shifted-negative (reg m i.rt) i.extra n h p in
    (sar32 (reg m i.rt) i.extra, refl, s.0, s.1)

-- What is promised of an unsigned division by `b`.
abbrev pub Divided : Machine → ℕ → ℕ → Outcome Next → Type 0
Divided m a b o =
    (m' : Machine) × (o ≡ go_on (after m) m')
    × (b ≢ 0 → (reg m' lo_reg * b + reg m' hi_reg ≡ a) × (reg m' hi_reg < b))
    × (b ≡ 0 → (reg m' lo_reg ≡ 0) × (reg m' hi_reg ≡ 0))

put_hi_lo-registers :
    (m : Machine) (hi lo : ℕ)
    → length m.registers ≡ 40
    → (m' : Machine) × (put_hi_lo m hi lo ≡ go_on (after m) m')
      × (reg m' lo_reg ≡ lo)
      × (reg m' hi_reg ≡ hi)
put_hi_lo-registers m hi lo h =
    let m₁ = set_reg m lo_reg lo in
    (
      set_reg m₁ hi_reg hi,
      refl,
      get_or-set_ne m₁.registers hi_reg lo_reg hi 0 (λ e. omega arith)
          ∙ get_or-set_self m.registers lo_reg lo 0 (omega (arith, h)),
      get_or-set_self m₁.registers hi_reg hi 0 (omega (arith, h, length-set m.registers lo_reg lo)),
    )

quotient-eq : (a b : ℕ) → b ≢ 0 → (a / b * b + a % b ≡ a) × (a % b < b)
quotient-eq a b h = grind arith

-- With all 40 registers, DIVU goes on at the next instruction with the quotient in LO and the
-- remainder, less than the divisor, in HI, and with two zeros there if the divisor is zero.
divu-Divided :
    (m : Machine) (i : Instruction)
    → length m.registers ≡ 40
    → Divided m (reg m i.rs) (reg m i.rt) (execute op_divu m i)
unfolding execute divide_unsigned
divu-Divided m i h = go (reg m i.rs) (reg m i.rt)
  where
    go : (a b : ℕ) → Divided m a b (divide_unsigned m a b)
    go a b = elim (Bool-cases (b == 0)) [
      | inl e ↦
          let (m', r, lo, hi) = put_hi_lo-registers m 0 0 h in
          rw e (m', r, λ n. absurd (n (ground arith)), λ z. (lo, hi))
      | inr e ↦
          let (m', r, lo, hi) = put_hi_lo-registers m (a % b) (a / b) h in
          rw e (
            m',
            r,
            λ n. (rw (lo, hi) (quotient-eq a b n).0, rw hi (quotient-eq a b n).1),
            λ z. absurd (ground arith),
          )
    ]
