-- ===== src/Directory/Names.antt =====
-- Comparing names up to 32 bytes is an equivalence.
use everything.Base.{ℕ, zero, suc, ◌≡◌, refl, true, List, [], ◌∷◌, arith}
use everything.Directory.{same_upto}

pub same_upto_refl : (n : ℕ) (a : List ℕ) → same_upto n a a ≡ true
unfolding same_upto
same_upto_refl zero a = refl
same_upto_refl (suc n) [] = refl
same_upto_refl (suc n) (x ∷ xs) = ground (arith, same_upto_refl n xs)

pub same_upto_sym : (n : ℕ) (a b : List ℕ) → same_upto n a b ≡ same_upto n b a
unfolding same_upto
same_upto_sym zero a b = refl
same_upto_sym (suc n) [] [] = refl
same_upto_sym (suc n) [] (y ∷ ys) = refl
same_upto_sym (suc n) (x ∷ xs) [] = refl
same_upto_sym (suc n) (x ∷ xs) (y ∷ ys) = ground (arith, same_upto_sym n xs ys)

-- Names that compare equal compare alike with any other.
pub same_upto_cong :
    (n : ℕ) (a b c : List ℕ) → same_upto n a b ≡ true → same_upto n a c ≡ same_upto n b c
unfolding same_upto
same_upto_cong zero a b c e = refl
same_upto_cong (suc n) [] [] c e = refl
same_upto_cong (suc n) [] (y ∷ ys) c e = ground arith
same_upto_cong (suc n) (x ∷ xs) [] c e = ground arith
same_upto_cong (suc n) (x ∷ xs) (y ∷ ys) [] e = refl
same_upto_cong (suc n) (x ∷ xs) (y ∷ ys) (z ∷ zs) e = ground (arith, same_upto_cong n xs ys zs)
