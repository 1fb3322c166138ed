-- ===== src/LinkedList/Ends.antt =====
-- Append, Prepend and RemoveFront against the sequence of the items.
use everything.Base.{
  ℕ, ◌+◌, ◌-◌, ◌<◌, ◌≡◌, ◌≢◌, refl, sym, ap, ◌∙◌, Option, none, some, List, [], ◌∷◌, ◌++◌, ◌==◌,
  arith, true, false, Bool-cases, inl, inr, Bool,
}
use everything.Semaphore as Plain
use everything.Semaphore.Items.{append-new, is_in_list-snoc}
use everything.LinkedList.{
  Heap, LinkedList, poke, new_element, is_in_list, link_last, append, link_first, prepend,
  remove_front, same_pointer,
}
use everything.LinkedList.Chain.{
  items, last_of, Apart, Linked, Represents, Became, Refines, poke-here, poke-other, Linked-poke,
  fresh-Apart, Linked-new_element, last-cell, Apart-last, length-snoc, items-snoc, last-snoc,
  Linked-snoc, is_in_list-Represents,
}

-- An element that is on the heap and in no list.
record Loose (h : Heap) (p x : ℕ) (es : List (ℕ × ℕ)) : Type 0 where
  here : h.cells p ≡ some (record { next = none; item = x })
  in_heap : p < h.fresh
  apart : Apart p es

new_element-Loose :
    (h : Heap) (item : ℕ) (es : List (ℕ × ℕ))
    → Linked h es
    → Loose (new_element h item) h.fresh item es
new_element-Loose h item es k = record {
  here = poke-here h h.fresh _;
  in_heap = omega arith;
  apart = fresh-Apart h es k;
}

new_element-Represents :
    (h : Heap) (l : LinkedList) (item : ℕ) (es : List (ℕ × ℕ))
    → Represents h l es
    → Represents (new_element h item) l es
new_element-Represents h l item es rep = record {
  first = rep.first;
  last = rep.last;
  count = rep.count;
  linked = Linked-new_element h item es rep.linked;
}

-- The element is in the list now, at one end.
record LinkedIn (h : Heap) (es es' : List (ℕ × ℕ)) (p : ℕ) (result : Option (Heap × LinkedList))
    : Type 0 where
  heap : Heap
  out : LinkedList
  returns : result ≡ some (heap, out)
  represents : Represents heap (record out { num_in_list = out.num_in_list + 1 }) es'
  frame : (a : ℕ) → Apart a es → a ≢ p → heap.cells a ≡ h.cells a

only :
    (h : Heap) (l : LinkedList) (p x : ℕ)
    → Represents h l []
    → Loose h p x []
    → Represents h
        (record { first = some p; last = some p; num_in_list = l.num_in_list + 1 })
        ((p, x) ∷ [])
only h l p x rep loose = record {
  first = refl;
  last = refl;
  count = omega (arith, rep.count);
  linked = (loose.here, tt, loose.in_heap, tt);
}

link_last-Linked :
    (h : Heap) (l : LinkedList) (p x : ℕ) (es : List (ℕ × ℕ))
    → Represents h l es
    → Loose h p x es
    → LinkedIn h es (es ++ (p, x) ∷ []) p (link_last h l p)
unfolding link_last
link_last-Linked h l p x [] rep loose =
    let empty : (l.num_in_list == 0) ≡ true = ground (arith, rep.count) in
    record {
      heap = h;
      out = record l { first = some p; last = some p };
      returns = rw empty refl;
      represents = only h l p x rep loose;
      frame = λ a apart ne. refl;
    }
link_last-Linked h l p x (e ∷ es) rep loose =
    let full : (l.num_in_list == 0) ≡ false = ground (arith, rep.count) in
    let end = last-cell h e es rep.linked in
    record {
      heap = poke h (last_of e es).0 (some (record { next = some p; item = (last_of e es).1 }));
      out = record l { last = some p };
      returns = rw (full, rep.last, end) refl;
      represents = record {
        first = rep.first;
        last = ap (λ (t : ℕ × ℕ). some t.0) (sym (last-snoc e es p x));
        count = omega (arith, rep.count, length-snoc (e ∷ es) (p, x));
        linked = Linked-snoc h e es p x rep.linked loose.apart loose.here loose.in_heap;
      };
      frame = λ a apart ne. poke-other h (last_of e es).0 a _ (Apart-last a e es apart);
    }

link_first-Linked :
    (h : Heap) (l : LinkedList) (p x : ℕ) (es : List (ℕ × ℕ))
    → Represents h l es
    → Loose h p x es
    → LinkedIn h es ((p, x) ∷ es) p (link_first h l p)
unfolding link_first
link_first-Linked h l p x [] rep loose =
    let empty : (l.num_in_list == 0) ≡ true = ground (arith, rep.count) in
    record {
      heap = h;
      out = record l { first = some p; last = some p };
      returns = rw empty refl;
      represents = only h l p x rep loose;
      frame = λ a apart ne. refl;
    }
link_first-Linked h l p x (e ∷ es) rep loose =
    let full : (l.num_in_list == 0) ≡ false = ground (arith, rep.count) in
    record {
      heap = poke h p (some (record { next = l.first; item = x }));
      out = record l { first = some p };
      returns = rw (full, loose.here) refl;
      represents = record {
        first = refl;
        last = rep.last;
        count = omega (arith, rep.count);
        linked = (
          poke-here h p _ ∙ ap (λ (q : Option ℕ). some (record { next = q; item = x })) rep.first,
          loose.apart,
          loose.in_heap,
          Linked-poke h p _ (e ∷ es) rep.linked loose.apart,
        );
      };
      frame = λ a apart ne. poke-other h p a _ ne;
    }

in_it : (xs : List ℕ) (item : ℕ) → Plain.is_in_list (xs ++ item ∷ []) item ≡ true
in_it xs item = is_in_list-snoc xs item item ∙ ground arith

first_in_it : (xs : List ℕ) (item : ℕ) → Plain.is_in_list (item ∷ xs) item ≡ true
unfolding Plain.is_in_list
first_in_it xs item = ground arith

-- The three steps of Append and Prepend: the element is made, linked and counted.
module _ (h : Heap) (l : LinkedList) (item : ℕ) (es : List (ℕ × ℕ)) (rep : Represents h l es) where
  asked :
      (b : Bool)
      → Plain.is_in_list (items es) item ≡ b
      → is_in_list (new_element h item) l item ≡ some b
  asked b e =
      is_in_list-Represents (new_element h item) l es item (new_element-Represents h l item es rep)
      ∙ ap some e

  frame_of :
      {es' : List (ℕ × ℕ)} {result : Option (Heap × LinkedList)}
      (lk : LinkedIn (new_element h item) es es' h.fresh result) (a : ℕ)
      → Apart a es
      → a ≢ h.fresh
      → lk.heap.cells a ≡ h.cells a
  frame_of lk a apart ne = lk.frame a apart ne ∙ poke-other h h.fresh a _ ne

  -- On a list whose elements stand on the heap, linked from first to last at different addresses
  -- and counted, Append fails exactly if the operation on the sequence of the items does, and
  -- otherwise leaves such a list with the items of that operation; no other element of the heap
  -- changes.
  pub append-Refines : Refines h es (Plain.append (items es) item) (append h l item)
  unfolding append
  append-Refines = elim (Bool-cases (Plain.is_in_list (items es) item)) [
    | inl there ↦
        let refused : Plain.append (items es) item ≡ none = unfold Plain.append in rw there refl in
        rw refused (rw (asked true there) refl)
    | inr new ↦
        let lk =
          link_last-Linked (new_element h item) l h.fresh item es
            (new_element-Represents h l item es rep) (new_element-Loose h item es rep.linked) in
        let shown = items-snoc es h.fresh item in
        let there =
          is_in_list-Represents lk.heap _ _ item lk.represents
          ∙ ap some
              (ap (λ (xs : List ℕ). Plain.is_in_list xs item) shown ∙ in_it (items es) item) in
        rw (append-new (items es) item new) (record {
          heap = lk.heap;
          out = record lk.out { num_in_list = lk.out.num_in_list + 1 };
          elements = es ++ (h.fresh, item) ∷ [];
          returns = rw (asked false new, lk.returns, there) refl;
          represents = lk.represents;
          shown = shown;
          frame = frame_of lk;
        })
  ]

  pub prepend-Became :
      Plain.is_in_list (items es) item ≡ false → Became h es (item ∷ items es) (prepend h l item)
  unfolding prepend
  prepend-Became new =
      let lk =
        link_first-Linked (new_element h item) l h.fresh item es
          (new_element-Represents h l item es rep) (new_element-Loose h item es rep.linked) in
      let there =
        is_in_list-Represents lk.heap _ _ item lk.represents
        ∙ ap some (first_in_it (items es) item) in
      record {
        heap = lk.heap;
        out = record lk.out { num_in_list = lk.out.num_in_list + 1 };
        elements = (h.fresh, item) ∷ es;
        returns = rw (asked false new, lk.returns, there) refl;
        represents = lk.represents;
        shown = refl;
        frame = frame_of lk;
      }

-- RemoveFront of a list with an item.
pub record FrontGone (h : Heap) (es : List (ℕ × ℕ)) (x : ℕ) (rest : List (ℕ × ℕ))
    (result : Option (ℕ × Heap × LinkedList)) : Type 0 where
  pub heap : Heap
  pub out : LinkedList
  pub returns : result ≡ some (x, heap, out)
  pub represents : Represents heap out rest
  pub frame : (a : ℕ) → Apart a es → heap.cells a ≡ h.cells a

pub remove_front-FrontGone :
    (h : Heap) (l : LinkedList) (a x : ℕ) (es : List (ℕ × ℕ))
    → Represents h l ((a, x) ∷ es)
    → FrontGone h ((a, x) ∷ es) x es (remove_front h l)
unfolding remove_front
remove_front-FrontGone h l a x [] rep =
    let full : (l.num_in_list == 0) ≡ false = ground (arith, rep.count) in
    let same : same_pointer (some a) (some a) ≡ true = ground arith in
    record {
      heap = poke h a none;
      out = record l { first = none; last = none; num_in_list = l.num_in_list - 1 };
      returns = rw (full, rep.first, rep.last, rep.linked.0, same) refl;
      represents = record {
        first = refl;
        last = refl;
        count = omega (arith, rep.count);
        linked = tt;
      };
      frame = λ b apart. poke-other h a b none apart.0;
    }
remove_front-FrontGone h l a x ((b, y) ∷ es) rep =
    let full : (l.num_in_list == 0) ≡ false = ground (arith, rep.count) in
    let ne = Apart-last a (b, y) es rep.linked.1 in
    let other : same_pointer (some a) (some (last_of (b, y) es).0) ≡ false = ground arith in
    record {
      heap = poke h a none;
      out = record l { first = some b; num_in_list = l.num_in_list - 1 };
      returns = rw (full, rep.first, rep.last, rep.linked.0, other) refl;
      represents = record {
        first = refl;
        last = rep.last;
        count = omega (arith, rep.count);
        linked = Linked-poke h a none ((b, y) ∷ es) rep.linked.3 rep.linked.1;
      };
      frame = λ c apart. poke-other h a c none apart.0;
    }
