-- ===== src/Paging/Evict.antt =====
-- The first part of PageReplacement: the front of the list gives up its frame.
use everything.Base.{
  ℕ, ◌+◌, ◌*◌, ◌≤◌, ◌<◌, ◌≡◌, ◌≢◌, refl, sym, ap, subst, ◌∙◌, ◌⊎◌, inl, inr, true, false, Option,
  none, some, List, ◌∷◌, length, arith, Bool-cases,
}
use native.Mathlib.Decide.{ℕ_discrete, dec_lt}
use everything.Bitmap.View.{is_marked}
use everything.Disk.{HostFile, padded}
use everything.Semaphore.{is_in_list, remove_front}
use everything.Paging.{Entry, Manager, put_at, evict}
use everything.Paging.Store.{padded-all, put-here, put-other, Once}
use everything.Paging.Contents.{Sound, Vacant, swapped, content_of, content}

module _ {F : Type 0} (host : HostFile F) where
  pub record Evicted (s : Manager F) (result : Option (ℕ × Manager F)) : Type 0 where
    pub p : ℕ
    pub out : Manager F
    pub returns : result ≡ some (p, out)
    pub sound : Sound out
    pub vacant : Vacant out p
    pub sized : out.memory.num_bits ≡ s.memory.num_bits
    pub same : (id : ℕ) → content host out id ≡ content host s id
    pub absent : (id : ℕ) → (s.entries id).valid ≡ false → (out.entries id).valid ≡ false

  module _ (r : ℕ) (rest : List ℕ) (q : ℕ) (s : Manager F) (ok : Sound s)
      (front : s.fifo ≡ r ∷ rest) (here : (s.entries r).valid ≡ true)
      (frame : (s.entries r).physical_page ≡ some q) (low : q < s.memory.num_bits)
      (used : is_marked s.memory q ≡ true) where
    gone : Entry
    gone = record (s.entries r) { valid = false; use_bit = false; physical_page = none }

    abbrev evicted : Manager F
    evicted = record s {
      fifo = rest;
      swap = host.write s.swap ((s.entries r).swap_index * 128) (s.frames q);
      entries = put_at s.entries r gone;
    }

    at_r : evicted.entries r ≡ gone
    at_r = put-here s.entries r gone

    at_others : (id : ℕ) → id ≢ r → evicted.entries id ≡ s.entries id
    at_others = put-other s.entries r gone

    -- An entry that is still valid is another one.
    still_valid :
        (id : ℕ) → (evicted.entries id).valid ≡ true → (id ≢ r) × ((s.entries id).valid ≡ true)
    unfolding gone
    still_valid id v = elim (ℕ_discrete id r) [
      | yes it ↦
          let not_valid = ap (λ (x : Entry). x.valid) (ap evicted.entries it ∙ at_r) in absurd cc
      | no other ↦ (other, sym (ap (λ (x : Entry). x.valid) (at_others id other)) ∙ v)
    ]

    slot_same : (id : ℕ) → (evicted.entries id).swap_index ≡ (s.entries id).swap_index
    unfolding gone
    slot_same id = elim (ℕ_discrete id r) [
      | yes it ↦
          ap (λ (x : Entry). x.swap_index) (ap evicted.entries it ∙ at_r)
          ∙ ap (λ (k : ℕ). (s.entries k).swap_index) (sym it)
      | no other ↦ ap (λ (x : Entry). x.swap_index) (at_others id other)
    ]

    content-r :
        content_of host s.frames evicted.swap gone ≡ content_of host s.frames s.swap (s.entries r)
    unfolding content_of swapped gone
    content-r =
        let back =
          rw (ok.full q) at
            (host.read-write s.swap ((s.entries r).swap_index * 128) (s.frames q)) in
        rw (here, frame) (ap (padded 128) back ∙ padded-all 128 (s.frames q) (ok.full q))

    apart : (a b k : ℕ) → a ≢ b → k ≡ 128 → (a * 128 + 128 ≤ b * 128) ⊎ (b * 128 + k ≤ a * 128)
    apart a b k ne e = elim (dec_lt a b) [ yes h ↦ inl (omega arith) | no h ↦ inr (omega arith) ]

    content-others :
        (id : ℕ)
        → id ≢ r
        → content_of host s.frames evicted.swap (s.entries id)
          ≡ content_of host s.frames s.swap (s.entries id)
    unfolding content_of swapped
    content-others id other = elim (Bool-cases (s.entries id).valid) [
      | inl v ↦ rw v refl
      | inr v ↦ rw v (
          ap (padded 128) (
            host.read-write_other s.swap ((s.entries r).swap_index * 128) (s.frames q)
              ((s.entries id).swap_index * 128) 128
              (apart (s.entries id).swap_index (s.entries r).swap_index (length (s.frames q))
                (λ e. other (ok.slots id r e)) (ok.full q))))
    ]

    content-evicted : (id : ℕ) → content host evicted id ≡ content host s id
    unfolding content
    content-evicted id = elim (ℕ_discrete id r) [
      | yes it ↦
          ap (content_of host s.frames evicted.swap) (ap evicted.entries it ∙ at_r)
          ∙ content-r
          ∙ ap (λ (k : ℕ). content_of host s.frames s.swap (s.entries k)) (sym it)
      | no other ↦
          ap (content_of host s.frames evicted.swap) (at_others id other) ∙ content-others id other
    ]

    page_same :
        (id p : ℕ)
        → (evicted.entries id).valid ≡ true
        → (evicted.entries id).physical_page ≡ some p
        → (s.entries id).physical_page ≡ some p
    page_same id p v e =
        sym (ap (λ (x : Entry). x.physical_page) (at_others id ((still_valid id v).0))) ∙ e

    evicted-queued : (id : ℕ) → is_in_list rest id ≡ true → (evicted.entries id).valid ≡ true
    unfolding is_in_list
    evicted-queued id h = elim (ℕ_discrete id r) [
      | yes it ↦
          let not_in : is_in_list rest r ≡ false = (subst Once front ok.once).0 in
          let as_r : is_in_list rest r ≡ true = ap (is_in_list rest) (sym it) ∙ h in absurd cc
      | no other ↦
          let listed : is_in_list s.fifo id ≡ true =
            ap (λ (xs : List ℕ). is_in_list xs id) front ∙ ground (arith, h) in
          ap (λ (x : Entry). x.valid) (at_others id other) ∙ ok.queued id listed
    ]

    evicted-Sound : Sound evicted
    evicted-Sound = record {
      memory = ok.memory;
      queued = evicted-queued;
      once = (subst Once front ok.once).1;
      placed = λ id v.
          let (other, v') = still_valid id v in
          let (p, e, l, m) = ok.placed id v' in
          (p, ap (λ (x : Entry). x.physical_page) (at_others id other) ∙ e, l, m);
      full = ok.full;
      alone = λ i j p vi vj ei ej.
          ok.alone i j p ((still_valid i vi).1) ((still_valid j vj).1) (page_same i p vi ei)
            (page_same j p vj ej);
      slots = λ i j e. ok.slots i j (sym (slot_same i) ∙ e ∙ slot_same j);
    }

    evicted-Vacant : Vacant evicted q
    evicted-Vacant = record {
      in_range = low;
      marked = used;
      unowned = λ id v e.
          let (other, v') = still_valid id v in
          other (ok.alone id r q v' here (page_same id q v e) frame);
    }

    evicted-absent : (id : ℕ) → (s.entries id).valid ≡ false → (evicted.entries id).valid ≡ false
    unfolding gone
    evicted-absent id v = elim (ℕ_discrete id r) [
      | yes it ↦ ap (λ (x : Entry). x.valid) (ap evicted.entries it ∙ at_r)
      | no other ↦ ap (λ (x : Entry). x.valid) (at_others id other) ∙ v
    ]

    pub evict-Evicted : Evicted s (evict host s)
    unfolding evict gone remove_front
    evict-Evicted = record {
      p = q;
      out = evicted;
      returns = rw (front, frame) refl;
      sound = evicted-Sound;
      vacant = evicted-Vacant;
      sized = refl;
      same = content-evicted;
      absent = evicted-absent;
    }
