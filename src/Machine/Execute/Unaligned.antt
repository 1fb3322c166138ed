-- ===== src/Machine/Execute/Unaligned.antt =====
-- LWL, LWR, SWL and SWR of machine/mipssim.cc in pairs: a word at any address, in two aligned words.
use everything.Base.{ℕ, ◌+◌, ◌-◌, ◌*◌, ◌/◌, ◌%◌, ◌^◌, ◌<◌, ◌≡◌, ◌⊎◌, inl, inr, arith}
use everything.Machine.Execute.{load_left, load_right, store_left, store_right}

-- The four bytes at offset `byte` of two words that follow each other, as a word.
abbrev pub straddling : ℕ → ℕ → ℕ → ℕ
straddling byte low high = (low + 2 ^ 32 * high) / 256 ^ byte % 2 ^ 32

offset-cases : (byte : ℕ) → 0 < byte → byte < 4 → (byte ≡ 1) ⊎ (byte ≡ 2) ⊎ (byte ≡ 3)
offset-cases byte p h = ground arith

load_left-mod :
    (low high r : ℕ)
    → low < 2 ^ 32
    → high < 2 ^ 32
    → r < 2 ^ 32
    → (load_right 1 low (load_left 0 high r) ≡ straddling 1 low high)
      × (load_right 2 low (load_left 1 high r) ≡ straddling 2 low high)
      × (load_right 3 low (load_left 2 high r) ≡ straddling 3 low high)
unfolding load_left load_right
load_left-mod low high r hl hh hr = (omega arith, omega arith, omega arith)

-- For an offset of 1, 2 or 3 and 32-bit words, LWL of the upper and then LWR of the lower aligned
-- word give the four bytes at the offset, whatever the register held.
load_right-load_left :
    (byte low high r : ℕ)
    → 0 < byte
    → byte < 4
    → low < 2 ^ 32
    → high < 2 ^ 32
    → r < 2 ^ 32
    → load_right byte low (load_left (byte - 1) high r) ≡ straddling byte low high
load_right-load_left byte low high r p h hl hh hr =
    let (one, two, three) = load_left-mod low high r hl hh hr in
    elim (offset-cases byte p h) [
      | inl e ↦ rw e one
      | inr (inl e) ↦ rw e two
      | inr (inr e) ↦ rw e three
    ]

stored-mod :
    (low high word : ℕ)
    → low < 2 ^ 32
    → high < 2 ^ 32
    → word < 2 ^ 32
    → (straddling 1 (store_right 1 low word) (store_left 0 high word) ≡ word)
      × (straddling 2 (store_right 2 low word) (store_left 1 high word) ≡ word)
      × (straddling 3 (store_right 3 low word) (store_left 2 high word) ≡ word)
unfolding store_left store_right
stored-mod low high word hl hh hw = (omega arith, omega arith, omega arith)

kept-mod :
    (low high word : ℕ)
    → low < 2 ^ 32
    → high < 2 ^ 32
    → word < 2 ^ 32
    → ((store_right 1 low word % 256 ^ 1 ≡ low % 256 ^ 1)
        × (store_left 0 high word / 256 ^ 1 ≡ high / 256 ^ 1))
      × ((store_right 2 low word % 256 ^ 2 ≡ low % 256 ^ 2)
          × (store_left 1 high word / 256 ^ 2 ≡ high / 256 ^ 2))
      × ((store_right 3 low word % 256 ^ 3 ≡ low % 256 ^ 3)
          × (store_left 2 high word / 256 ^ 3 ≡ high / 256 ^ 3))
unfolding store_left store_right
kept-mod low high word hl hh hw =
    ((omega arith, omega arith), (omega arith, omega arith), (omega arith, omega arith))

-- For an offset of 1, 2 or 3 and 32-bit words, what SWR makes of the lower and SWL of the upper
-- aligned word holds the stored word in the four bytes at the offset; the bytes below the offset in
-- the lower word and those from it on in the upper word stay.
store_right-store_left :
    (byte low high word : ℕ)
    → 0 < byte
    → byte < 4
    → low < 2 ^ 32
    → high < 2 ^ 32
    → word < 2 ^ 32
    → (straddling byte (store_right byte low word) (store_left (byte - 1) high word) ≡ word)
      × (store_right byte low word % 256 ^ byte ≡ low % 256 ^ byte)
      × (store_left (byte - 1) high word / 256 ^ byte ≡ high / 256 ^ byte)
store_right-store_left byte low high word p h hl hh hw =
    let (one, two, three) = stored-mod low high word hl hh hw in
    let (k₁, k₂, k₃) = kept-mod low high word hl hh hw in
    elim (offset-cases byte p h) [
      | inl e ↦ rw e (one, k₁.0, k₁.1)
      | inr (inl e) ↦ rw e (two, k₂.0, k₂.1)
      | inr (inr e) ↦ rw e (three, k₃.0, k₃.1)
    ]
