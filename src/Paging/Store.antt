-- ===== src/Paging/Store.antt =====
-- The stores, the padding and the list that the memory manager stands on.
use everything.Base.{
  ℕ, zero, suc, ◌≡◌, ◌≢◌, refl, ap, ◌∙◌, true, false, List, [], ◌∷◌, ◌++◌, length, ◌==◌, arith,
}
use everything.Disk.{padded}
use everything.Semaphore.{is_in_list}
use everything.Semaphore.Items.{is_in_list-snoc}
use everything.Paging.{put_at}

pub padded-all : (n : ℕ) (xs : List ℕ) → length xs ≡ n → padded n xs ≡ xs
unfolding padded
padded-all zero [] h = refl
padded-all zero (x ∷ xs) h = absurd (omega arith)
padded-all (suc n) [] h = absurd (omega arith)
padded-all (suc n) (x ∷ xs) h = ap (◌∷◌ x) (padded-all n xs (omega arith))

pub length-padded : (n : ℕ) (xs : List ℕ) → length (padded n xs) ≡ n
unfolding padded
length-padded zero xs = refl
length-padded (suc n) [] = ap suc (length-padded n [])
length-padded (suc n) (x ∷ xs) = ap suc (length-padded n xs)

same-eq : (k : ℕ) → (k == k) ≡ true
same-eq k = ground arith

pub other-eq : (j i : ℕ) → j ≢ i → (j == i) ≡ false
other-eq j i ne = ground arith

module _ {A : Type 0} (f : ℕ → A) (i : ℕ) (a : A) where
  pub put-here : put_at f i a i ≡ a
  put-here = rw (same-eq i) refl

  pub put-other : (j : ℕ) → j ≢ i → put_at f i a j ≡ f j
  put-other j ne = rw (other-eq j i ne) refl

-- No entry stands twice in the list.
abbrev pub Once : List ℕ → Type 0
Once [] = Unit {0}
Once (x ∷ xs) = (is_in_list xs x ≡ false) × Once xs

pub Once-snoc : (xs : List ℕ) (x : ℕ) → Once xs → is_in_list xs x ≡ false → Once (xs ++ x ∷ [])
unfolding is_in_list
Once-snoc [] x o new = (refl, tt)
Once-snoc (y ∷ xs) x (first, o) new =
    (is_in_list-snoc xs x y ∙ ground (arith, first, new), Once-snoc xs x o (ground (arith, new)))
