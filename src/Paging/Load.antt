-- ===== src/Paging/Load.antt =====
-- The second part of PageReplacement: a page comes into a frame.
use everything.Base.{
  ℕ, ◌*◌, ◌<◌, ◌≡◌, ◌≢◌, refl, sym, ap, ◌∙◌, ◌⊎◌, inl, inr, true, false, Option, some, List, [],
  ◌∷◌, ◌++◌, length, arith, Bool-cases,
}
use native.Mathlib.Decide.{ℕ_discrete}
use everything.Bitmap.View.{is_marked}
use everything.Disk.{HostFile, padded}
use everything.Semaphore.{is_in_list}
use everything.Paging.{Entry, Manager, put_at, load}
use everything.Semaphore.Items.{is_in_list-snoc, append-new}
use everything.Paging.Store.{length-padded, other-eq, put-here, put-other, Once-snoc}
use everything.Paging.Contents.{Sound, Vacant, swapped, content_of, content}

module _ {F : Type 0} (host : HostFile F) where
  pub record Loaded (s : Manager F) (tle p : ℕ) (result : Option (ℕ × Manager F)) : Type 0 where
    pub out : Manager F
    pub returns : result ≡ some (p, out)
    pub sound : Sound out
    pub present : ((out.entries tle).valid ≡ true) × ((out.entries tle).physical_page ≡ some p)
    pub sized : out.memory.num_bits ≡ s.memory.num_bits
    pub same : (id : ℕ) → content host out id ≡ content host s id

  module _ (tle p : ℕ) (s : Manager F) (ok : Sound s) (vacant : Vacant s p)
      (absent : (s.entries tle).valid ≡ false) where
    entry' : Entry
    entry' = record (s.entries tle) { valid = true; use_bit = true; physical_page = some p }

    page : List ℕ
    page = padded 128 (host.read s.swap ((s.entries tle).swap_index * 128) 128)

    abbrev loaded : Manager F
    loaded = record s {
      fifo = s.fifo ++ tle ∷ [];
      entries = put_at s.entries tle entry';
      frames = put_at s.frames p page;
    }

    at_tle : loaded.entries tle ≡ entry'
    at_tle = put-here s.entries tle entry'

    at_other : (id : ℕ) → id ≢ tle → loaded.entries id ≡ s.entries id
    at_other = put-other s.entries tle entry'

    new_in_list : is_in_list s.fifo tle ≡ false
    new_in_list = elim (Bool-cases (is_in_list s.fifo tle)) [
      | inl e ↦ let it = ok.queued tle e in absurd cc
      | inr e ↦ e
    ]

    -- A valid entry has its frame as before, or is the new one and has `p`.
    frame_of :
        (id q : ℕ)
        → (loaded.entries id).valid ≡ true
        → (loaded.entries id).physical_page ≡ some q
        → ((id ≡ tle) × (q ≡ p))
          ⊎ ((id ≢ tle)
              × (q ≢ p)
              × ((s.entries id).valid ≡ true)
              × ((s.entries id).physical_page ≡ some q))
    unfolding entry'
    frame_of id q v e = elim (ℕ_discrete id tle) [
      | yes it ↦
          let its : some p ≡ some q =
            sym (ap (λ (x : Entry). x.physical_page) (ap loaded.entries it ∙ at_tle)) ∙ e in
          inl (it, cc)
      | no other ↦
          let same = at_other id other in
          let v' : (s.entries id).valid ≡ true = sym (ap (λ (x : Entry). x.valid) same) ∙ v in
          let e' : (s.entries id).physical_page ≡ some q =
            sym (ap (λ (x : Entry). x.physical_page) same) ∙ e in
          inr (other, (λ is_p. vacant.unowned id v' (e' ∙ ap some is_p)), v', e')
    ]

    content-tle :
        content_of host loaded.frames s.swap entry'
        ≡ content_of host s.frames s.swap (s.entries tle)
    unfolding content_of swapped entry' page
    content-tle = rw absent (put-here s.frames p page)

    content-rest :
        (id : ℕ)
        → content_of host loaded.frames s.swap (s.entries id)
          ≡ content_of host s.frames s.swap (s.entries id)
    unfolding content_of swapped
    content-rest id = elim (Bool-cases (s.entries id).valid) [
      | inr v ↦ rw v refl
      | inl v ↦
          let (q, e, low, used) = ok.placed id v in
          rw (v, e) (put-other s.frames p page q (λ is_p. vacant.unowned id v (e ∙ ap some is_p)))
    ]

    content-loaded : (id : ℕ) → content host loaded id ≡ content host s id
    unfolding content
    content-loaded id = elim (ℕ_discrete id tle) [
      | yes it ↦
          ap (content_of host loaded.frames s.swap) (ap loaded.entries it ∙ at_tle)
          ∙ content-tle
          ∙ ap (λ (k : ℕ). content_of host s.frames s.swap (s.entries k)) (sym it)
      | no other ↦ ap (content_of host loaded.frames s.swap) (at_other id other) ∙ content-rest id
    ]

    same_slot : (id : ℕ) → (loaded.entries id).swap_index ≡ (s.entries id).swap_index
    unfolding entry'
    same_slot id = elim (ℕ_discrete id tle) [
      | yes it ↦
          ap (λ (x : Entry). x.swap_index) (ap loaded.entries it ∙ at_tle)
          ∙ ap (λ (k : ℕ). (s.entries k).swap_index) (sym it)
      | no other ↦ ap (λ (x : Entry). x.swap_index) (at_other id other)
    ]

    loaded-queued : (id : ℕ) → is_in_list loaded.fifo id ≡ true → (loaded.entries id).valid ≡ true
    unfolding entry'
    loaded-queued id h = elim (ℕ_discrete id tle) [
      | yes it ↦ ap (λ (x : Entry). x.valid) (ap loaded.entries it ∙ at_tle)
      | no other ↦
          let old : is_in_list s.fifo id ≡ true =
            ground (arith, is_in_list-snoc s.fifo tle id, other-eq id tle other, h) in
          ap (λ (x : Entry). x.valid) (at_other id other) ∙ ok.queued id old
    ]

    loaded-placed :
        (id : ℕ)
        → (loaded.entries id).valid ≡ true
        → (q : ℕ) × ((loaded.entries id).physical_page ≡ some q)
          × (q < s.memory.num_bits)
          × (is_marked s.memory q ≡ true)
    unfolding entry'
    loaded-placed id v = elim (ℕ_discrete id tle) [
      | yes it ↦ (
        p,
        ap (λ (x : Entry). x.physical_page) (ap loaded.entries it ∙ at_tle),
        vacant.in_range,
        vacant.marked,
      )
      | no other ↦
          let same = at_other id other in
          let (q, e, low, used) = ok.placed id (sym (ap (λ (x : Entry). x.valid) same) ∙ v) in
          (q, ap (λ (x : Entry). x.physical_page) same ∙ e, low, used)
    ]

    loaded-full : (q : ℕ) → length (loaded.frames q) ≡ 128
    unfolding page
    loaded-full q = elim (ℕ_discrete q p) [
      | yes it ↦ ap length (ap loaded.frames it ∙ put-here s.frames p page) ∙ length-padded 128 _
      | no other ↦ ap length (put-other s.frames p page q other) ∙ ok.full q
    ]

    loaded-alone :
        (i j q : ℕ)
        → (loaded.entries i).valid ≡ true
        → (loaded.entries j).valid ≡ true
        → (loaded.entries i).physical_page ≡ some q
        → (loaded.entries j).physical_page ≡ some q
        → i ≡ j
    loaded-alone i j q vi vj ei ej = elim (frame_of i q vi ei) [
      | inl (is_i, is_p) ↦ elim (frame_of j q vj ej) [
        | inl (is_j, _) ↦ is_i ∙ sym is_j
        | inr (_, not_p, _, _) ↦ absurd (not_p is_p)
      ]
      | inr (_, not_p, vi', ei') ↦ elim (frame_of j q vj ej) [
        | inl (_, is_p) ↦ absurd (not_p is_p)
        | inr (_, _, vj', ej') ↦ ok.alone i j q vi' vj' ei' ej'
      ]
    ]

    loaded-Sound : Sound loaded
    loaded-Sound = record {
      memory = ok.memory;
      queued = loaded-queued;
      once = Once-snoc s.fifo tle ok.once new_in_list;
      placed = loaded-placed;
      full = loaded-full;
      alone = loaded-alone;
      slots = λ i j e. ok.slots i j (sym (same_slot i) ∙ e ∙ same_slot j);
    }

    pub load-Loaded : Loaded s tle p (load host tle p s)
    unfolding load entry' page
    load-Loaded = record {
      out = loaded;
      returns = rw (append-new s.fifo tle new_in_list) refl;
      sound = loaded-Sound;
      present = (ap (λ (x : Entry). x.valid) at_tle, ap (λ (x : Entry). x.physical_page) at_tle);
      sized = refl;
      same = content-loaded;
    }
    -- The front of the list gave up its frame.
