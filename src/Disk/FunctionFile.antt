-- ===== src/Disk/FunctionFile.antt =====
-- A file of the host, for the runs: a function from offsets to bytes.
use everything.Base.{
  ℕ, zero, suc, ◌+◌, ◌≤◌, ◌<◌, ◌≡◌, refl, ap, ap₂, ◌∙◌, ◌⊎◌, inl, inr, true, false, List, [], ◌∷◌,
  length, replicate, ◌==◌, if◌then◌else◌, arith,
}
use everything.Disk.{HostFile}

read : (ℕ → ℕ) → ℕ → ℕ → List ℕ
read f at zero = []
read f at (suc len) = f at ∷ read f (at + 1) len

write : (ℕ → ℕ) → ℕ → List ℕ → ℕ → ℕ
write f at [] = f
write f at (x ∷ xs) = λ i. let rest = write f (at + 1) xs i in if i == at then x else rest

read-cong :
    (f g : ℕ → ℕ) (at len : ℕ)
    → ((i : ℕ) → at ≤ i → i < at + len → f i ≡ g i)
    → read f at len ≡ read g at len
unfolding read
read-cong f g at zero h = refl
read-cong f g at (suc len) h =
    ap₂ ◌∷◌ (h at (omega arith) (omega arith))
      (read-cong f g (at + 1) len (λ i lo hi. h i (omega arith) (omega arith)))

write-outside :
    (f : ℕ → ℕ) (at : ℕ) (xs : List ℕ) (i : ℕ)
    → (i < at) ⊎ (at + length xs ≤ i)
    → write f at xs i ≡ f i
unfolding write
write-outside f at [] i h = refl
write-outside f at (x ∷ xs) i h =
    let other : (i == at) ≡ false = elim h [ inl e ↦ ground arith | inr e ↦ ground arith ] in
    rw other (
      write-outside f (at + 1) xs i
        (elim h [ inl e ↦ inl (omega arith) | inr e ↦ inr (omega arith) ]))

same-eq : (at : ℕ) → (at == at) ≡ true
same-eq at = ground arith

other-eq : (at i : ℕ) → at + 1 ≤ i → (i == at) ≡ false
other-eq at i h = ground arith

read_back : (f : ℕ → ℕ) (at : ℕ) (xs : List ℕ) → read (write f at xs) at (length xs) ≡ xs
unfolding read write
read_back f at [] = refl
read_back f at (x ∷ xs) = ap₂ ◌∷◌ (rw (same-eq at) refl) (
    read-cong _ (write f (at + 1) xs) (at + 1) (length xs) (λ i lo hi. rw (other-eq at i lo) refl)
    ∙ read_back f (at + 1) xs)

pub host : HostFile (ℕ → ℕ)
host = record {
  read = read;
  write = write;
  read-write = read_back;
  read-write_other = λ f at xs at' len' h. read-cong (write f at xs) f at' len' (λ i lo hi.
      write-outside f at xs i (elim h [ inl e ↦ inl (omega arith) | inr e ↦ inr (omega arith) ]));
}

read-zeros : (at len : ℕ) → read (λ i. 0) at len ≡ replicate len 0
unfolding read
read-zeros at zero = refl
read-zeros at (suc len) = ap (◌∷◌ 0) (read-zeros (at + 1) len)

-- A blank file.
pub host-zeros : (at len : ℕ) → host.read (λ i. 0) at len ≡ replicate len 0
unfolding host
host-zeros = read-zeros
