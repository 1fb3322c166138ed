-- ===== src/Paging/Replacement.antt =====
-- PageReplacement as a whole.
use everything.Base.{
  ℕ, ◌<◌, ◌≡◌, ◌≢◌, sym, ap, subst, ◌∙◌, ◌⊎◌, inl, inr, true, false, Option, some, List, ◌∷◌, arith,
}
use everything.Bitmap.{Bitmap}
use everything.Bitmap.View.{is_marked}
use everything.Bitmap.Search.{FirstClear, find_and_set-Searched}
use everything.Disk.{HostFile}
use everything.Semaphore.{is_in_list}
use everything.Paging.{Manager, page_replacement}
use everything.Paging.Contents.{Sound, Vacant, content}
use everything.Paging.Load.{load-Loaded}
use everything.Paging.Evict.{evict-Evicted}

front-listed : (r : ℕ) (rest : List ℕ) → is_in_list (r ∷ rest) r ≡ true
unfolding is_in_list
front-listed r rest = ground arith

module _ {F : Type 0} (host : HostFile F) where
  -- A frame that was clear goes to no valid entry.
  module _ (s : Manager F) (ok : Sound s) (result : Option (Option ℕ × Bitmap))
      (f : FirstClear s.memory result) where
    abbrev taken : Manager F
    taken = record s { memory = f.out }

    still_marked : (q : ℕ) → is_marked s.memory q ≡ true → is_marked f.out q ≡ true
    still_marked q used = f.bits q ∙ ground (arith, used)

    taken-Sound : Sound taken
    taken-Sound = record {
      memory = f.valid;
      queued = ok.queued;
      once = ok.once;
      placed = λ id v.
          let (q, e, low, used) = ok.placed id v in
          (q, e, subst (λ (n : ℕ). q < n) (sym f.same_size) low, still_marked q used);
      full = ok.full;
      alone = ok.alone;
      slots = ok.slots;
    }

    unowned_at : (id : ℕ) → (s.entries id).valid ≡ true → (s.entries id).physical_page ≢ some f.at
    unowned_at id v e =
        let (q, e', low, used) = ok.placed id v in
        let same : some q ≡ some f.at = sym e' ∙ e in
        let is_at : q ≡ f.at = cc in
        let clear = f.was_clear in
        let as_at : is_marked s.memory f.at ≡ true = sym (ap (is_marked s.memory) is_at) ∙ used in
        absurd cc

    taken-Vacant : Vacant taken f.at
    taken-Vacant = record {
      in_range = subst (λ (n : ℕ). f.at < n) (sym f.same_size) f.in_range;
      marked = f.bits f.at ∙ ground arith;
      unowned = unowned_at;
    }

  -- The page of `tle` is in a frame, every page has the contents it had, and the state is sound.
  pub record Replaced (s : Manager F) (tle : ℕ) : Type 0 where
    pub p : ℕ
    pub out : Manager F
    pub returns : page_replacement host tle s ≡ some (p, out)
    pub sound : Sound out
    pub present : ((out.entries tle).valid ≡ true) × ((out.entries tle).physical_page ≡ some p)
    pub sized : out.memory.num_bits ≡ s.memory.num_bits
    pub same : (id : ℕ) → content host out id ≡ content host s id

  -- In a sound state, with a frame that is clear or a list that is not empty, PageReplacement of an
  -- entry that is not valid succeeds and makes it valid with the frame that is returned; the state
  -- is sound again, and the page of every entry, read from its frame or else from the swap file,
  -- has the contents it had before.
  pub page_replacement-Replaced :
      (tle : ℕ) (s : Manager F)
      → Sound s
      → (s.entries tle).valid ≡ false
      → ((q : ℕ) × (q < s.memory.num_bits) × (is_marked s.memory q ≡ false))
        ⊎ ((r : ℕ) × (rest : List ℕ) × (s.fifo ≡ r ∷ rest))
      → Replaced s tle
  unfolding page_replacement content
  page_replacement-Replaced tle s ok absent room = elim (find_and_set-Searched s.memory ok.memory) [
    | inl f ↦
        let l =
          load-Loaded host tle f.at (taken s ok _ f) (taken-Sound s ok _ f) (taken-Vacant s ok _ f)
            absent in
        record {
          p = f.at;
          out = l.out;
          returns = rw f.returns l.returns;
          sound = l.sound;
          present = l.present;
          sized = l.sized ∙ f.same_size;
          same = l.same;
        }
    | inr f ↦ elim room [
      | inl (q, low, clear) ↦ let used = f.all_marked q low in absurd cc
      | inr (r, rest, front) ↦
          let here =
            ok.queued r (ap (λ (xs : List ℕ). is_in_list xs r) front ∙ front-listed r rest) in
          let (q, e, low, used) = ok.placed r here in
          let v = evict-Evicted host r rest q s ok front here e low used in
          let l = load-Loaded host tle v.p v.out v.sound v.vacant (v.absent tle absent) in
          record {
            p = v.p;
            out = l.out;
            returns = rw (f.returns, v.returns) l.returns;
            sound = l.sound;
            present = l.present;
            sized = l.sized ∙ v.sized;
            same = λ id. l.same id ∙ v.same id;
          }
    ]
  ]
