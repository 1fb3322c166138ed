-- ===== src/LinkedList/Removal.antt =====
-- Remove against the sequence of the items.
use everything.Base.{
  ℕ, zero, suc, ◌+◌, ◌-◌, ◌≤◌, ◌<◌, ◌≡◌, refl, sym, ap, subst, ◌∙◌, Option, none, some, List, [],
  ◌∷◌, ◌==◌, if◌then◌else◌, arith, length, true, false, Bool, Bool-cases, inl, inr, ◌>>=◌, ◌>>◌,
  assert, not,
}
use everything.Semaphore as Plain
use everything.HashTable.{unlink_item, list_remove}
use everything.LinkedList.{
  ListElement, Heap, LinkedList, poke, is_in_list, remove_rest, remove_first, take_out, remove,
  same_pointer,
}
use everything.LinkedList.Chain.{
  head_ptr, items, last_of, Apart, Linked, Represents, Refines, poke-here, poke-other, Linked-poke,
  is_in_list-Represents,
}
use everything.LinkedList.Ends.{remove_front-FrontGone}

-- The elements without the first that has the item.
abbrev pub without : List (ℕ × ℕ) → ℕ → List (ℕ × ℕ)
without [] item = []
without ((a, x) ∷ es) item = let rest = without es item in if item == x then es else (a, x) ∷ rest

items-without :
    (es : List (ℕ × ℕ)) (item : ℕ) → items (without es item) ≡ unlink_item (items es) item
unfolding unlink_item
items-without [] item = refl
items-without ((a, x) ∷ es) item = elim (Bool-cases (item == x)) [
  | inl e ↦ rw e refl
  | inr e ↦ rw e (ap (◌∷◌ x) (items-without es item))
]

length-without :
    (es : List (ℕ × ℕ)) (item : ℕ)
    → Plain.is_in_list (items es) item ≡ true
    → length (without es item) + 1 ≡ length es
unfolding Plain.is_in_list
length-without [] item there = cc
length-without ((a, x) ∷ es) item there = elim (Bool-cases (item == x)) [
  | inl e ↦ rw e (omega arith)
  | inr e ↦ rw e (omega (arith, length-without es item (ground (arith, e, there))))
]

Apart-without : (a : ℕ) (es : List (ℕ × ℕ)) (item : ℕ) → Apart a es → Apart a (without es item)
Apart-without a [] item apart = tt
Apart-without a ((b, x) ∷ es) item (ne, apart) = elim (Bool-cases (item == x)) [
  | inl e ↦ rw e apart
  | inr e ↦ rw e (ne, Apart-without a es item apart)
]

-- What the loop of Remove leaves behind the element `(b, y)`.
record Unlinked (h : Heap) (b y : ℕ) (es : List (ℕ × ℕ)) (item : ℕ) (l : LinkedList)
    (result : Option (Heap × LinkedList)) : Type 0 where
  heap : Heap
  out : LinkedList
  returns : result ≡ some (heap, out)
  linked : Linked heap ((b, y) ∷ without es item)
  first : out.first ≡ l.first
  last : out.last ≡ some (last_of (b, y) (without es item)).0
  count : out.num_in_list ≡ l.num_in_list - 1
  frame : (a : ℕ) → Apart a ((b, y) ∷ es) → heap.cells a ≡ h.cells a
  bound : heap.fresh ≡ h.fresh

last_after :
    (b y p x : ℕ) (es : List (ℕ × ℕ)) (last : Option ℕ)
    → last ≡ some (last_of (p, x) es).0
    → (if same_pointer (head_ptr es) none then some b else last) ≡ some (last_of (b, y) es).0
last_after b y p x [] last e = refl
last_after b y p x ((a, z) ∷ es) last e = e

module _ (h : Heap) (b y p x : ℕ) (es : List (ℕ × ℕ)) (l : LinkedList)
    (k : Linked h ((b, y) ∷ (p, x) ∷ es)) (at_end : l.last ≡ some (last_of (p, x) es).0) where
  abbrev bypassed : Heap
  bypassed = poke (poke h b (some (record { next = head_ptr es; item = y }))) p none

  bypassed-Linked : Linked bypassed ((b, y) ∷ es)
  bypassed-Linked =
      let ne = k.1.0 in
      (
        poke-other (poke h b _) p b none ne ∙ poke-here h b _,
        k.1.1,
        k.2,
        Linked-poke (poke h b _) p none es (Linked-poke h b _ es k.3.3 k.1.1) k.3.1,
      )

  bypassed-last :
      (if same_pointer (head_ptr es) none then some b else l.last) ≡ some (last_of (b, y) es).0
  bypassed-last = last_after b y p x es l.last at_end

  remove_rest-here :
      (fuel item : ℕ)
      → (item == x) ≡ true
      → Unlinked h b y ((p, x) ∷ es) item l (remove_rest (suc fuel) h b (some p) l item)
  unfolding remove_rest
  remove_rest-here fuel item e =
      let still : (poke h b (some (record { next = head_ptr es; item = y }))).cells p
          ≡ some (record { next = head_ptr es; item = x }) =
        poke-other h b p _ (λ c. k.1.0 (sym c)) ∙ k.3.0 in
      record {
        heap = bypassed;
        out = record l {
          last = if same_pointer (head_ptr es) none then some b else l.last;
          num_in_list = l.num_in_list - 1;
        };
        returns = rw (k.3.0, e, k.0, still) refl;
        linked = rw e bypassed-Linked;
        first = refl;
        last = rw e bypassed-last;
        count = refl;
        frame = λ a apart. poke-other (poke h b _) p a none apart.1.0 ∙ poke-other h b a _ apart.0;
        bound = refl;
      }

-- The loop goes on behind `(p, x)`.
remove_rest-later :
    (fuel : ℕ) (h : Heap) (b y p x : ℕ) (es : List (ℕ × ℕ)) (item : ℕ) (l : LinkedList)
    → Linked h ((b, y) ∷ (p, x) ∷ es)
    → (item == x) ≡ false
    → Unlinked h p x es item l (remove_rest fuel h p (head_ptr es) l item)
    → Unlinked h b y ((p, x) ∷ es) item l (remove_rest (suc fuel) h b (some p) l item)
unfolding remove_rest
remove_rest-later fuel h b y p x es item l k e u =
    let kept : Linked u.heap ((b, y) ∷ (p, x) ∷ without es item) = (
      u.frame b k.1 ∙ k.0,
      (k.1.0, Apart-without b es item k.1.1),
      subst (λ (n : ℕ). b < n) (sym u.bound) k.2,
      u.linked,
    ) in
    record {
      heap = u.heap;
      out = u.out;
      returns = rw (k.3.0, e) u.returns;
      linked = rw e kept;
      first = u.first;
      last = rw e u.last;
      count = u.count;
      frame = λ a apart. u.frame a apart.1;
      bound = u.bound;
    }

remove_rest-Unlinked :
    (fuel : ℕ) (h : Heap) (b y : ℕ) (es : List (ℕ × ℕ)) (item : ℕ) (l : LinkedList)
    → length es ≤ fuel
    → Linked h ((b, y) ∷ es)
    → l.last ≡ some (last_of (b, y) es).0
    → Plain.is_in_list (items es) item ≡ true
    → Unlinked h b y es item l (remove_rest fuel h b (head_ptr es) l item)
unfolding Plain.is_in_list
remove_rest-Unlinked fuel h b y [] item l enough k at_end there = cc
remove_rest-Unlinked zero h b y ((p, x) ∷ es) item l enough k at_end there = absurd (omega arith)
remove_rest-Unlinked (suc fuel) h b y ((p, x) ∷ es) item l enough k at_end there =
    elim (Bool-cases (item == x)) [
      | inl e ↦ remove_rest-here h b y p x es l k at_end fuel item e
      | inr e ↦
          let later : Plain.is_in_list (items es) item ≡ true = ground (arith, e, there) in
          remove_rest-later fuel h b y p x es item l k e
            (remove_rest-Unlinked fuel h p x es item l (omega arith) k.3 at_end later)
    ]

-- The two branches of Remove before its last ASSERT.
record Taken (h : Heap) (es : List (ℕ × ℕ)) (item : ℕ) (result : Option (Heap × LinkedList))
    : Type 0 where
  heap : Heap
  out : LinkedList
  returns : result ≡ some (heap, out)
  represents : Represents heap out (without es item)
  frame : (a : ℕ) → Apart a es → heap.cells a ≡ h.cells a

remove_first-Taken :
    (h : Heap) (l : LinkedList) (a x : ℕ) (es : List (ℕ × ℕ)) (item : ℕ)
    → Represents h l ((a, x) ∷ es)
    → (item == x) ≡ true
    → Taken h ((a, x) ∷ es) item (remove_first h l item)
unfolding remove_first
remove_first-Taken h l a x es item rep e =
    let f = remove_front-FrontGone h l a x es rep in
    record {
      heap = f.heap;
      out = f.out;
      returns = rw (f.returns, e) refl;
      represents = rw e f.represents;
      frame = f.frame;
    }

remove_rest-Taken :
    (h : Heap) (l : LinkedList) (a x : ℕ) (es : List (ℕ × ℕ)) (item : ℕ)
    → Represents h l ((a, x) ∷ es)
    → (item == x) ≡ false
    → Plain.is_in_list (items es) item ≡ true
    → Taken h ((a, x) ∷ es) item (remove_rest l.num_in_list h a (head_ptr es) l item)
remove_rest-Taken h l a x es item rep e there =
    let u =
      remove_rest-Unlinked l.num_in_list h a x es item l (omega (arith, rep.count)) rep.linked
        rep.last there in
    let rest : Represents u.heap u.out ((a, x) ∷ without es item) = record {
      first = u.first ∙ rep.first;
      last = u.last;
      count = omega (arith, u.count, rep.count, length-without es item there);
      linked = u.linked;
    } in
    record {
      heap = u.heap;
      out = u.out;
      returns = u.returns;
      represents = rw e rest;
      frame = u.frame;
    }

list_remove-Taken :
    (h : Heap) (l : LinkedList) (es : List (ℕ × ℕ)) (item : ℕ) (result : Option (Heap × LinkedList))
    → Taken h es item result
    → Refines h es
        (do
          assert (not (Plain.is_in_list (unlink_item (items es) item) item))
          some (unlink_item (items es) item))
        (do (h', l') ← result; there ← is_in_list h' l' item; assert (not there); some (h', l'))
list_remove-Taken h l es item result k =
    let shown = items-without es item in
    let asked =
      is_in_list-Represents k.heap k.out (without es item) item k.represents
      ∙ ap (λ (xs : List ℕ). some (Plain.is_in_list xs item)) shown in
    elim (Bool-cases (Plain.is_in_list (unlink_item (items es) item) item)) [
      | inl still ↦ rw (k.returns, asked, still) refl
      | inr gone ↦ rw gone (record {
        heap = k.heap;
        out = k.out;
        elements = without es item;
        returns = rw (k.returns, asked, gone) refl;
        represents = k.represents;
        shown = shown;
        frame = λ a apart ne. k.frame a apart;
      })
    ]

later_there :
    (a x : ℕ) (es : List (ℕ × ℕ)) (item : ℕ)
    → (item == x) ≡ false
    → Plain.is_in_list (items ((a, x) ∷ es)) item ≡ true
    → Plain.is_in_list (items es) item ≡ true
unfolding Plain.is_in_list
later_there a x es item e there = ground (arith, e, there)

take_out-branch :
    (h : Heap) (l : LinkedList) (a x : ℕ) (es : List (ℕ × ℕ)) (item : ℕ) (b : Bool)
    → Represents h l ((a, x) ∷ es)
    → (item == x) ≡ b
    → take_out h l item
      ≡ (if b then remove_first h l item else remove_rest l.num_in_list h a (head_ptr es) l item)
unfolding take_out
take_out-branch h l a x es item b rep e =
    ap
      (λ (ptr : Option ℕ). ptr >>= λ first. h.cells first >>= λ element.
        if item == element.item
        then remove_first h l item
        else remove_rest l.num_in_list h first element.next l item)
      rep.first
    ∙ ap
        (λ (cell : Option ListElement). cell >>= λ element.
          if item == element.item
          then remove_first h l item
          else remove_rest l.num_in_list h a element.next l item)
        rep.linked.0
    ∙ ap
        (λ (t : Bool).
          if t then remove_first h l item else remove_rest l.num_in_list h a (head_ptr es) l item)
        e

take_out-Taken :
    (h : Heap) (l : LinkedList) (es : List (ℕ × ℕ)) (item : ℕ)
    → Represents h l es
    → Plain.is_in_list (items es) item ≡ true
    → Taken h es item (take_out h l item)
take_out-Taken h l [] item rep there = unfold Plain.is_in_list in cc
take_out-Taken h l ((a, x) ∷ es) item rep there = elim (Bool-cases (item == x)) [
  | inl e ↦
      subst (Taken h ((a, x) ∷ es) item) (sym (take_out-branch h l a x es item true rep e))
        (remove_first-Taken h l a x es item rep e)
  | inr e ↦
      subst (Taken h ((a, x) ∷ es) item) (sym (take_out-branch h l a x es item false rep e))
        (remove_rest-Taken h l a x es item rep e (later_there a x es item e there))
]

-- On a list whose elements stand on the heap, linked from first to last at different addresses and
-- counted, Remove fails exactly if the operation on the sequence of the items does, and otherwise
-- leaves such a list with the items of that operation, its last pointer moved back if the last
-- element went; no other element of the heap changes.
pub remove-list_remove :
    (h : Heap) (l : LinkedList) (item : ℕ) (es : List (ℕ × ℕ))
    → Represents h l es
    → Refines h es (list_remove (items es) item) (remove h l item)
unfolding remove list_remove
remove-list_remove h l item es rep =
    let asked = is_in_list-Represents h l es item rep in
    elim (Bool-cases (Plain.is_in_list (items es) item)) [
      | inr gone ↦ rw (asked, gone) refl
      | inl there ↦
          rw (asked, there)
            (list_remove-Taken h l es item (take_out h l item)
              (take_out-Taken h l es item rep there))
    ]
