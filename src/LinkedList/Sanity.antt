-- ===== src/LinkedList/Sanity.antt =====
-- SanityCheck ends and passes.
use everything.Base.{
  ℕ, zero, suc, ◌+◌, ◌≤◌, ◌<◌, ◌≡◌, ◌≢◌, refl, ap, ap₂, ◌∙◌, Option, some, List, [], ◌∷◌, ◌==◌,
  arith, length, true, false, leb,
}
use everything.LinkedList.{Heap, LinkedList, same_pointer, count_to, ends, sanity_check}
use everything.LinkedList.Chain.{
  head_ptr, last_of, last_ptr, Linked, Represents, last-cell, Apart-last,
}

same-same : (p : ℕ) → same_pointer (some p) (some p) ≡ true
same-same p = ground arith

same-other : (p q : ℕ) → p ≢ q → same_pointer (some p) (some q) ≡ false
same-other p q ne = ground arith

count_to-Linked :
    (fuel : ℕ) (h : Heap) (e : ℕ × ℕ) (es : List (ℕ × ℕ)) (num_in_list num_found : ℕ)
    → length es < fuel
    → Linked h (e ∷ es)
    → num_found + length es ≤ num_in_list
    → count_to fuel h (some e.0) (some (last_of e es).0) num_in_list num_found
      ≡ some (num_found + length es)
unfolding count_to
count_to-Linked zero h e es num_in_list num_found enough k fits = absurd (omega arith)
count_to-Linked (suc fuel) h e [] num_in_list num_found enough k fits =
    rw (same-same e.0) (ap some (omega arith))
count_to-Linked (suc fuel) h e (e' ∷ es) num_in_list num_found enough (cell, distinct, low, k)
      fits =
    let other = same-other e.0 (last_of e' es).0 (Apart-last e.0 e' es distinct) in
    let in_range : leb (num_found + 1) num_in_list ≡ true = ground arith in
    rw
      (
        other,
        in_range,
        cell,
        count_to-Linked fuel h e' es num_in_list (num_found + 1) (omega arith) k (omega arith),
      )
      (ap some (omega arith))

ends-Linked :
    (h : Heap) (e : ℕ × ℕ) (es : List (ℕ × ℕ))
    → Linked h (e ∷ es)
    → ends h (some (last_of e es).0) ≡ some true
ends-Linked h e es k = rw (last-cell h e es k) refl

-- The fields of the list in place of the record.
checked :
    (h : Heap) (es : List (ℕ × ℕ)) (n : ℕ)
    → Linked h es
    → n ≡ length es
    → sanity_check h (record { first = head_ptr es; last = last_ptr es; num_in_list = n }) ≡ some tt
unfolding sanity_check
checked h [] n k e = rw e refl
checked h (e ∷ []) n k c =
    let single : (n == 1) ≡ true = ground (arith, c) in
    rw (same-same e.0, single, ends-Linked h e [] k) refl
checked h (e ∷ e' ∷ es) n k c =
    let other = same-other e.0 (last_of e' es).0 (Apart-last e.0 e' es k.1) in
    let all : (1 + length (e' ∷ es) == n) ≡ true = ground (arith, c) in
    rw
      (
        other,
        count_to-Linked n h e (e' ∷ es) n 1 (omega arith) k (omega arith),
        all,
        ends-Linked h e (e' ∷ es) k,
      )
      refl

-- On a list whose elements stand on the heap, linked from first to last at different addresses and
-- counted, SanityCheck ends within one round for each item and fails no ASSERT.
pub sanity_check-Represents :
    (h : Heap) (l : LinkedList) (es : List (ℕ × ℕ)) → Represents h l es → sanity_check h l ≡ some tt
sanity_check-Represents h l es rep =
    ap₂
      (λ (first last : Option ℕ).
        sanity_check h (record { first = first; last = last; num_in_list = l.num_in_list }))
      rep.first rep.last
    ∙ checked h es l.num_in_list rep.linked rep.count
