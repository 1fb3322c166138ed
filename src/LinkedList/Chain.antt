-- ===== src/LinkedList/Chain.antt =====
-- A list of elements on the heap, by their addresses and items.
use everything.Base.{
  ℕ, zero, suc, ◌+◌, ◌≤◌, ◌<◌, ◌≡◌, ◌≢◌, refl, sym, ap, ap₂, ◌∙◌, Option, none, some, List, [], ◌∷◌,
  ◌++◌, ◌==◌, arith, length, length-append, Bool-cases, inl, inr,
}
use everything.Semaphore as Plain
use everything.LinkedList.{ListElement, Heap, LinkedList, poke, new_element, search, is_in_list}

abbrev pub head_ptr : List (ℕ × ℕ) → Option ℕ
head_ptr [] = none
head_ptr ((a, x) ∷ es) = some a

abbrev pub items : List (ℕ × ℕ) → List ℕ
items [] = []
items ((a, x) ∷ es) = x ∷ items es

abbrev pub last_of : ℕ × ℕ → List (ℕ × ℕ) → ℕ × ℕ
last_of e [] = e
last_of e (e' ∷ es) = last_of e' es

abbrev pub last_ptr : List (ℕ × ℕ) → Option ℕ
last_ptr [] = none
last_ptr (e ∷ es) = some (last_of e es).0

-- No element of the list has the address.
abbrev pub Apart : ℕ → List (ℕ × ℕ) → Type 0
Apart a [] = Unit {0}
Apart a ((b, x) ∷ es) = (a ≢ b) × Apart a es

-- The elements stand on the heap, each with a pointer to the next.
abbrev pub Linked : Heap → List (ℕ × ℕ) → Type 0
Linked h [] = Unit {0}
Linked h ((a, x) ∷ es) =
    (h.cells a ≡ some (record { next = head_ptr es; item = x }))
    × Apart a es
    × (a < h.fresh)
    × Linked h es

pub record Represents (h : Heap) (l : LinkedList) (es : List (ℕ × ℕ)) : Type 0 where
  pub first : l.first ≡ head_ptr es
  pub last : l.last ≡ last_ptr es
  pub count : l.num_in_list ≡ length es
  pub linked : Linked h es

pub poke-here : (h : Heap) (p : ℕ) (c : Option ListElement) → (poke h p c).cells p ≡ c
poke-here h p c = ground arith

pub poke-other :
    (h : Heap) (p a : ℕ) (c : Option ListElement) → a ≢ p → (poke h p c).cells a ≡ h.cells a
poke-other h p a c ne = ground arith

pub Linked-poke :
    (h : Heap) (p : ℕ) (c : Option ListElement) (es : List (ℕ × ℕ))
    → Linked h es
    → Apart p es
    → Linked (poke h p c) es
Linked-poke h p c [] k apart = tt
Linked-poke h p c ((a, x) ∷ es) (cell, distinct, low, k) (ne, apart) =
    (poke-other h p a c (λ e. ne (sym e)) ∙ cell, distinct, low, Linked-poke h p c es k apart)

pub fresh-Apart : (h : Heap) (es : List (ℕ × ℕ)) → Linked h es → Apart h.fresh es
fresh-Apart h [] k = tt
fresh-Apart h ((a, x) ∷ es) (cell, distinct, low, k) = ((λ e. omega arith), fresh-Apart h es k)

pub Linked-new_element :
    (h : Heap) (item : ℕ) (es : List (ℕ × ℕ)) → Linked h es → Linked (new_element h item) es
Linked-new_element h item [] k = tt
Linked-new_element h item ((a, x) ∷ es) (cell, distinct, low, k) = (
  poke-other h h.fresh a _ (λ e. omega arith) ∙ cell,
  distinct,
  omega arith,
  Linked-new_element h item es k,
)

-- IsInList answers as on the sequence of the items.
pub search-Linked :
    (fuel : ℕ) (h : Heap) (es : List (ℕ × ℕ)) (item : ℕ)
    → length es ≤ fuel
    → Linked h es
    → search fuel h (head_ptr es) item ≡ some (Plain.is_in_list (items es) item)
unfolding search Plain.is_in_list
search-Linked zero h [] item enough k = refl
search-Linked (suc fuel) h [] item enough k = refl
search-Linked zero h ((a, x) ∷ es) item enough k = absurd (omega arith)
search-Linked (suc fuel) h ((a, x) ∷ es) item enough (cell, distinct, low, k) =
    rw (cell, search-Linked fuel h es item (omega arith) k)
      (elim (Bool-cases (item == x)) [ inl e ↦ rw e refl | inr e ↦ rw e refl ])

pub last-cell :
    (h : Heap) (e : ℕ × ℕ) (es : List (ℕ × ℕ))
    → Linked h (e ∷ es)
    → h.cells (last_of e es).0 ≡ some (record { next = none; item = (last_of e es).1 })
last-cell h e [] k = k.0
last-cell h e (e' ∷ es) (cell, distinct, low, k) = last-cell h e' es k

pub Apart-last : (a : ℕ) (e : ℕ × ℕ) (es : List (ℕ × ℕ)) → Apart a (e ∷ es) → a ≢ (last_of e es).0
Apart-last a e [] (ne, apart) = ne
Apart-last a e (e' ∷ es) (ne, apart) = Apart-last a e' es apart

pub Apart-snoc : (a p x : ℕ) (es : List (ℕ × ℕ)) → Apart a es → a ≢ p → Apart a (es ++ (p, x) ∷ [])
Apart-snoc a p x [] apart ne = (ne, tt)
Apart-snoc a p x ((b, y) ∷ es) (first, apart) ne = (first, Apart-snoc a p x es apart ne)

pub length-snoc : (es : List (ℕ × ℕ)) (e : ℕ × ℕ) → length (es ++ e ∷ []) ≡ length es + 1
length-snoc es e = omega (arith, length-append es (e ∷ []))

pub items-snoc : (es : List (ℕ × ℕ)) (p x : ℕ) → items (es ++ (p, x) ∷ []) ≡ items es ++ x ∷ []
items-snoc [] p x = refl
items-snoc ((a, y) ∷ es) p x = ap (◌∷◌ y) (items-snoc es p x)

pub last-snoc : (e : ℕ × ℕ) (es : List (ℕ × ℕ)) (p x : ℕ) → last_of e (es ++ (p, x) ∷ []) ≡ (p, x)
last-snoc e [] p x = refl
last-snoc e (e' ∷ es) p x = last-snoc e' es p x

-- A new element behind the last one.
pub Linked-snoc :
    (h : Heap) (e : ℕ × ℕ) (es : List (ℕ × ℕ)) (p x : ℕ)
    → Linked h (e ∷ es)
    → Apart p (e ∷ es)
    → h.cells p ≡ some (record { next = none; item = x })
    → p < h.fresh
    → Linked
        (poke h (last_of e es).0 (some (record { next = some p; item = (last_of e es).1 })))
        ((e ∷ es) ++ (p, x) ∷ [])
Linked-snoc h (a, y) [] p x (cell, distinct, low, k) (ne, apart) here in_heap =
    (poke-here h a _, ((λ e. ne (sym e)), tt), low, (poke-other h a p _ ne ∙ here, tt, in_heap, tt))
Linked-snoc h (a, y) ((b, z) ∷ es) p x (cell, distinct, low, k) (ne, apart) here in_heap = (
  poke-other h (last_of (b, z) es).0 a _ (Apart-last a (b, z) es distinct) ∙ cell,
  Apart-snoc a p x ((b, z) ∷ es) distinct (λ e. ne (sym e)),
  low,
  Linked-snoc h (b, z) es p x k apart here in_heap,
)

pub is_in_list-Represents :
    (h : Heap) (l : LinkedList) (es : List (ℕ × ℕ)) (item : ℕ)
    → Represents h l es
    → is_in_list h l item ≡ some (Plain.is_in_list (items es) item)
unfolding is_in_list
is_in_list-Represents h l es item rep =
    ap₂ (λ (n : ℕ) (ptr : Option ℕ). search n h ptr item) rep.count rep.first
    ∙ search-Linked (length es) h es item (omega arith) rep.linked

-- The list has the items `xs` now, and no other element of the heap changed.
pub record Became (h : Heap) (es : List (ℕ × ℕ)) (xs : List ℕ) (result : Option (Heap × LinkedList))
    : Type 0 where
  pub heap : Heap
  pub out : LinkedList
  pub elements : List (ℕ × ℕ)
  pub returns : result ≡ some (heap, out)
  pub represents : Represents heap out elements
  pub shown : items elements ≡ xs
  pub frame : (a : ℕ) → Apart a es → a ≢ h.fresh → heap.cells a ≡ h.cells a

-- The result on the heap is what the operation on the sequence of the items says.
abbrev pub Refines : Heap → List (ℕ × ℕ) → Option (List ℕ) → Option (Heap × LinkedList) → Type 0
Refines h es none result = result ≡ none
Refines h es (some xs) result = Became h es xs result
