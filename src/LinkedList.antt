-- ===== src/LinkedList.antt =====
-- lib/list.h and lib/list.cc: List<T> and SortedList<T> with their elements on a heap. An item is a number; a
-- pointer is an address, or `none` for NULL. `none` as a result is a failed ASSERT, or the use of a pointer that is
-- NULL or whose element is deleted. The loops run on fuel, one round for each element that the list counts.
pub mod Chain
pub mod Ends
pub mod Removal
pub mod Sanity
mod Examples
use everything.Base.{
  ℕ, zero, suc, ◌+◌, ◌-◌, Bool, true, false, not, ◌&&◌, Option, none, some, ◌==◌, leb,
  if◌then◌else◌, assert, ◌>>=◌, ◌>>◌,
}

pub record ListElement : Type 0 where
  pub next : Option ℕ
  pub item : ℕ

-- The elements by their addresses, and the address that the next `new` gives.
pub record Heap : Type 0 where
  pub cells : ℕ → Option ListElement
  pub fresh : ℕ

pub record LinkedList : Type 0 where
  pub first : Option ℕ
  pub last : Option ℕ
  pub num_in_list : ℕ

abbrev pub poke : Heap → ℕ → Option ListElement → Heap
poke h p cell = record h { cells = λ a. if a == p then cell else h.cells a }

-- ListElement<T>::ListElement; the address is `h.fresh`.
abbrev pub new_element : Heap → ℕ → Heap
new_element h itm = record (poke h h.fresh (some (record { next = none; item = itm }))) {
  fresh = h.fresh + 1;
}

abbrev pub set_next : Heap → ℕ → Option ℕ → Option Heap
set_next h p q = do element ← h.cells p; some (poke h p (some (record element { next = q })))

abbrev pub delete : Heap → ℕ → Option Heap
delete h p = do element ← h.cells p; some (poke h p none)

abbrev pub same_pointer : Option ℕ → Option ℕ → Bool
same_pointer none none = true
same_pointer none (some q) = false
same_pointer (some p) none = false
same_pointer (some p) (some q) = p == q

-- List<T>::List
abbrev pub new : LinkedList
new = record { first = none; last = none; num_in_list = 0 }

abbrev pub is_empty : LinkedList → Bool
is_empty l = l.num_in_list == 0

-- The loop of IsInList.
pub search : ℕ → Heap → Option ℕ → ℕ → Option Bool
search zero h none item = some false
search zero h (some p) item = none
search (suc fuel) h none item = some false
search (suc fuel) h (some p) item = do
  element ← h.cells p
  let rest = search fuel h element.next item
  if item == element.item then some true else rest

-- List<T>::IsInList
pub is_in_list : Heap → LinkedList → ℕ → Option Bool
unfolding search
is_in_list h l item = search l.num_in_list h l.first item

-- What Append does with a list that is empty, and with one that is not.
pub link_last : Heap → LinkedList → ℕ → Option (Heap × LinkedList)
link_last h l element =
    let behind = (do
      last ← l.last
      h' ← set_next h last (some element)
      some (h', record l { last = some element })) in
    if is_empty l then some (h, record l { first = some element; last = some element }) else behind

-- List<T>::Append
pub append : Heap → LinkedList → ℕ → Option (Heap × LinkedList)
unfolding is_in_list link_last
append h l item = do
  let h₁ = new_element h item
  there ← is_in_list h₁ l item
  assert (not there)
  (h₂, l₁) ← link_last h₁ l h.fresh
  let l₂ = record l₁ { num_in_list = l₁.num_in_list + 1 }
  there' ← is_in_list h₂ l₂ item
  assert there'
  some (h₂, l₂)

pub link_first : Heap → LinkedList → ℕ → Option (Heap × LinkedList)
link_first h l element =
    let before = (do
      h' ← set_next h element l.first
      some (h', record l { first = some element })) in
    if is_empty l then some (h, record l { first = some element; last = some element }) else before

-- List<T>::Prepend
pub prepend : Heap → LinkedList → ℕ → Option (Heap × LinkedList)
unfolding is_in_list link_first
prepend h l item = do
  let h₁ = new_element h item
  there ← is_in_list h₁ l item
  assert (not there)
  (h₂, l₁) ← link_first h₁ l h.fresh
  let l₂ = record l₁ { num_in_list = l₁.num_in_list + 1 }
  there' ← is_in_list h₂ l₂ item
  assert there'
  some (h₂, l₂)

-- List<T>::RemoveFront
pub remove_front : Heap → LinkedList → Option (ℕ × Heap × LinkedList)
remove_front h l = do
  assert (not (is_empty l))
  element ← l.first
  front ← h.cells element
  let l' =
      if same_pointer l.first l.last
      then record l { first = none; last = none }
      else record l { first = front.next }
  h' ← delete h element
  some (front.item, h', record l' { num_in_list = l.num_in_list - 1 })

-- The loop of Remove. A NULL pointer fails the ASSERT behind the loop.
pub remove_rest : ℕ → Heap → ℕ → Option ℕ → LinkedList → ℕ → Option (Heap × LinkedList)
remove_rest zero h prev ptr l item = none
remove_rest (suc fuel) h prev none l item = none
remove_rest (suc fuel) h prev (some ptr) l item = do
  element ← h.cells ptr
  let rest = remove_rest fuel h ptr element.next l item
  let found = (do
    h₁ ← set_next h prev element.next
    h₂ ← delete h₁ ptr
    some (
      h₂,
      record l {
        last = if same_pointer element.next none then some prev else l.last;
        num_in_list = l.num_in_list - 1;
      },
    ))
  if item == element.item then found else rest

-- The first branch of Remove.
pub remove_first : Heap → LinkedList → ℕ → Option (Heap × LinkedList)
unfolding remove_front
remove_first h l item = do
  (removed, h', l') ← remove_front h l
  assert (item == removed)
  some (h', l')

-- Remove between its ASSERTs.
pub take_out : Heap → LinkedList → ℕ → Option (Heap × LinkedList)
unfolding remove_first remove_rest
take_out h l item = do
  first ← l.first
  element ← h.cells first
  if item == element.item
      then remove_first h l item
      else remove_rest l.num_in_list h first element.next l item

-- List<T>::Remove
pub remove : Heap → LinkedList → ℕ → Option (Heap × LinkedList)
unfolding is_in_list take_out
remove h l item = do
  there ← is_in_list h l item
  assert there
  (h', l') ← take_out h l item
  there' ← is_in_list h' l' item
  assert (not there')
  some (h', l')

-- The loop of SanityCheck from `ptr`, with numFound.
pub count_to : ℕ → Heap → Option ℕ → Option ℕ → ℕ → ℕ → Option ℕ
count_to zero h ptr last num_in_list num_found = none
count_to (suc fuel) h ptr last num_in_list num_found =
    let rest = (do
      assert (leb (num_found + 1) num_in_list)
      p ← ptr
      element ← h.cells p
      count_to fuel h element.next last num_in_list (num_found + 1)) in
    if same_pointer ptr last then some num_found else rest

-- The element at the pointer `last` is the end.
abbrev pub ends : Heap → Option ℕ → Option Bool
ends h last = do p ← last; element ← h.cells p; some (same_pointer element.next none)

-- List<T>::SanityCheck
pub sanity_check : Heap → LinkedList → Option (Unit {0})
unfolding count_to
sanity_check h l =
    let one = (do ended ← ends h l.last; assert (l.num_in_list == 1 && ended)) in
    let many = (do
      num_found ← count_to l.num_in_list h l.first l.last l.num_in_list 1
      assert (num_found == l.num_in_list)
      ended ← ends h l.last
      assert ended) in
    if same_pointer l.first none
    then assert (l.num_in_list == 0 && same_pointer l.last none)
    else if same_pointer l.first l.last
    then one
    else many
