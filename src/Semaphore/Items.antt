-- ===== src/Semaphore/Items.antt =====
-- List<T>::Append and IsInList on the items in their order.
use everything.Base.{ℕ, ◌≡◌, refl, ◌∙◌, true, false, some, List, [], ◌∷◌, ◌++◌, ◌==◌, ◌||◌, arith}
use everything.Semaphore.{append, is_in_list}

same_item : (k : ℕ) → (k == k) ≡ true
same_item k = ground arith

pub is_in_list-snoc :
    (xs : List ℕ) (x j : ℕ) → is_in_list (xs ++ x ∷ []) j ≡ (is_in_list xs j || j == x)
unfolding is_in_list
is_in_list-snoc [] x j = ground arith
is_in_list-snoc (y ∷ xs) x j = ground (arith, is_in_list-snoc xs x j)

pub append-new : (xs : List ℕ) (x : ℕ) → is_in_list xs x ≡ false → append xs x ≡ some (xs ++ x ∷ [])
unfolding append
append-new xs x new =
    let there : is_in_list (xs ++ x ∷ []) x ≡ true =
      is_in_list-snoc xs x x ∙ ground (arith, same_item x) in
    rw (new, there) refl
