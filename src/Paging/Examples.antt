-- ===== src/Paging/Examples.antt =====
-- A memory of one frame, which holds the page of entry 0.
use everything.Base.{
  ℕ, get_or, ◌≡◌, refl, sym, ◌∙◌, inr, true, false, some, none, [], ◌∷◌, ◌==◌, if◌then◌else◌,
  replicate, arith,
}
use everything.Paging.{Entry, Manager}
use everything.Disk.FunctionFile.{host}
use everything.Semaphore.{is_in_list}
use everything.Paging.Contents.{Sound, content}
use everything.Paging.Space.{AddrSpace}
use everything.Paging.Space.Reached.{Served, page_replacement-translate}
use everything.Paging.Replacement.{Replaced, page_replacement-Replaced}

abbrev entry_of : ℕ → Entry
entry_of id = record {
  virtual_page = id;
  swap_index = id;
  physical_page = if id == 0 then some 0 else none;
  valid = id == 0;
  read_only = false;
  use_bit = false;
  dirty = false;
}

abbrev one_frame : Manager (ℕ → ℕ)
one_frame = record {
  fifo = 0 ∷ [];
  memory = record { num_bits = 1; num_words = 1; map = 1 ∷ [] };
  swap = λ i. i;
  swap_counter = 7;
  entries = entry_of;
  frames = λ p. replicate 128 9;
}

is_zero : (id : ℕ) → (id == 0) ≡ true → id ≡ 0
is_zero id v = ground arith

listed_zero : (id : ℕ) → is_in_list (0 ∷ []) id ≡ true → (id == 0) ≡ true
unfolding is_in_list
listed_zero id h = ground arith

one_frame-Sound : Sound one_frame
unfolding is_in_list
one_frame-Sound = record {
  memory = record { sized = refl; stored = refl };
  queued = listed_zero;
  once = (refl, tt);
  placed = λ id v. (0, rw v refl, omega arith, refl);
  full = λ p. refl;
  alone = λ i j p vi vj ei ej. is_zero i vi ∙ sym (is_zero j vj);
  slots = λ i j e. e;
}

-- Entry 0 gives up the frame for entry 1.
page_replacement-Replaced_example : Replaced host one_frame 1
page_replacement-Replaced_example =
    page_replacement-Replaced host 1 one_frame one_frame-Sound refl (inr (0, [], refl))

-- Page 2 of the space is entry 1, whose page is on the swap file.
abbrev three_pages : AddrSpace
three_pages = record { page_table = 4 ∷ 0 ∷ 1 ∷ []; num_pages = 3 }

page_replacement-translate_example :
    Served host one_frame three_pages 1 300 (get_or (content host one_frame 1) 44 0)
page_replacement-translate_example =
    page_replacement-translate host 1 300 one_frame three_pages one_frame-Sound (omega arith) refl
      (inr (0, [], refl)) (omega arith) refl
