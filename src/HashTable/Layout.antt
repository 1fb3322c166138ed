-- ===== src/HashTable/Layout.antt =====
-- Where the items of a table stand: each in the bucket that its key hashes to, and no two with one key.
use everything.Base.{
  ℕ, zero, suc, ◌+◌, ◌-◌, ◌%◌, ◌≤◌, ◌<◌, ◌≡◌, ◌≢◌, refl, ap, subst, ◌∙◌, Option, none, some, List,
  [], ◌∷◌, ◌++◌, arith, length, length-append, get_or, set, replicate,
}
use native.Mathlib.Decide.{ℕ_discrete}
use mathlib.Core.List.{flatten}
use mathlib.Core.Option.{or_else}
use everything.HashTable.{HashTable, find_item}
use everything.HashTable.Chain.{Distinct, find_item-append}

module _ (get_key hash : ℕ → ℕ) where
  -- The items of bucket `i` of `n`.
  abbrev pub InBucket : ℕ → ℕ → List ℕ → Type 0
  InBucket n i [] = Unit {0}
  InBucket n i (x ∷ xs) = (hash (get_key x) % n ≡ i) × InBucket n i xs

  -- The buckets from `i` on.
  abbrev pub Placed : ℕ → ℕ → List (List ℕ) → Type 0
  Placed n i [] = Unit {0}
  Placed n i (b ∷ bs) = InBucket n i b × Distinct get_key b × Placed n (i + 1) bs

  pub other_bucket :
      (n i : ℕ) (xs : List ℕ) (k : ℕ)
      → InBucket n i xs
      → hash k % n ≢ i
      → find_item get_key xs k ≡ none
  unfolding find_item
  other_bucket n i [] k h ne = refl
  other_bucket n i (x ∷ xs) k (e, h) ne =
      ground
        (arith, other_bucket n i xs k h ne, e, ap (λ (t : ℕ). hash t % n) {x = k} {y = get_key x})

  pub bucket_before :
      (n i : ℕ) (bs : List (List ℕ)) (k : ℕ)
      → Placed n i bs
      → hash k % n < i
      → find_item get_key (flatten bs) k ≡ none
  unfolding find_item or_else flatten
  bucket_before n i [] k h low = refl
  bucket_before n i (b ∷ bs) k (here, d, h) low =
      find_item-append get_key b (flatten bs) k
      ∙ rw (other_bucket n i b k here (omega arith)) (bucket_before n (i + 1) bs k h (omega arith))

  -- FindInBucket in the right bucket finds what is in the table at all.
  pub find_item-flatten :
      (n i : ℕ) (bs : List (List ℕ)) (k : ℕ)
      → Placed n i bs
      → i ≤ hash k % n
      → find_item get_key (flatten bs) k ≡ find_item get_key (get_or bs (hash k % n - i) []) k
  unfolding find_item or_else flatten
  find_item-flatten n i [] k h low = refl
  find_item-flatten n i (b ∷ bs) k (here, d, h) low =
      find_item-append get_key b (flatten bs) k ∙ elim (ℕ_discrete (hash k % n) i) [
        | yes e ↦
            let zero_off : hash k % n - i ≡ 0 = omega arith in
            rw (zero_off, bucket_before n (i + 1) bs k h (omega arith))
              (or_none (find_item get_key b k))
        | no ne ↦
            let later : hash k % n - i ≡ suc (hash k % n - (i + 1)) = omega arith in
            rw (other_bucket n i b k here ne, later)
              (find_item-flatten n (i + 1) bs k h (omega arith))
      ]
    where
      or_none : (o : Option ℕ) → or_else o none ≡ o
      or_none none = refl
      or_none (some x) = refl

  Distinct-append :
      (n i : ℕ) (xs ys : List ℕ)
      → InBucket n i xs
      → Distinct get_key xs
      → Distinct get_key ys
      → ((k : ℕ) → hash k % n ≡ i → find_item get_key ys k ≡ none)
      → Distinct get_key (xs ++ ys)
  unfolding or_else
  Distinct-append n i [] ys h d d' apart = d'
  Distinct-append n i (x ∷ xs) ys (e, h) (first, d) d' apart = (
    find_item-append get_key xs ys (get_key x) ∙ rw first (apart (get_key x) e),
    Distinct-append n i xs ys h d d' apart,
  )

  pub Placed-Distinct :
      (n i : ℕ) (bs : List (List ℕ)) → Placed n i bs → Distinct get_key (flatten bs)
  unfolding flatten
  Placed-Distinct n i [] h = tt
  Placed-Distinct n i (b ∷ bs) (here, d, h) =
      Distinct-append n i b (flatten bs) here d (Placed-Distinct n (i + 1) bs h)
        (λ k e. bucket_before n (i + 1) bs k h (omega arith))

  pub Placed-get :
      (n i j : ℕ) (bs : List (List ℕ))
      → Placed n i bs
      → j < length bs
      → InBucket n (i + j) (get_or bs j []) × Distinct get_key (get_or bs j [])
  Placed-get n i j [] h low = absurd (omega arith)
  Placed-get n i zero (b ∷ bs) (here, d, h) low =
      (subst (λ (t : ℕ). InBucket n t b) (omega arith) here, d)
  Placed-get n i (suc j) (b ∷ bs) (here, d, h) low =
      let (at, d') = Placed-get n (i + 1) j bs h (omega arith) in
      (subst (λ (t : ℕ). InBucket n t (get_or bs j [])) (omega arith) at, d')

  pub Placed-set :
      (n i j : ℕ) (bs : List (List ℕ)) (b' : List ℕ)
      → Placed n i bs
      → InBucket n (i + j) b'
      → Distinct get_key b'
      → Placed n i (set bs j b')
  Placed-set n i j [] b' h at d' = tt
  Placed-set n i zero (b ∷ bs) b' (here, d, h) at d' =
      (subst (λ (t : ℕ). InBucket n t b') (omega arith) at, d', h)
  Placed-set n i (suc j) (b ∷ bs) b' (here, d, h) at d' = (
    here,
    d,
    Placed-set n (i + 1) j bs b' h (subst (λ (t : ℕ). InBucket n t b') (omega arith) at) d',
  )

  pub Placed-replicate : (n i m : ℕ) → Placed n i (replicate m [])
  Placed-replicate n i zero = tt
  Placed-replicate n i (suc m) = (tt, tt, Placed-replicate n (i + 1) m)

  pub InBucket-snoc :
      (n i : ℕ) (xs : List ℕ) (x : ℕ)
      → InBucket n i xs
      → hash (get_key x) % n ≡ i
      → InBucket n i (xs ++ x ∷ [])
  InBucket-snoc n i [] x h e = (e, tt)
  InBucket-snoc n i (y ∷ xs) x (e', h) e = (e', InBucket-snoc n i xs x h e)

  unfoldable pub view : ℕ → List (List ℕ) → ℕ → Option ℕ
  view n bs k = find_item get_key (get_or bs (hash k % n) []) k

  pub record Legal (table : HashTable) : Type 0 where
    pub some_bucket : 0 < table.num_buckets
    pub stored : length table.buckets ≡ table.num_buckets
    pub placed : Placed table.num_buckets 0 table.buckets
    pub counted : table.num_items ≡ length (flatten table.buckets)

pub length-flatten-set :
    (j : ℕ) (bs : List (List ℕ)) (b' : List ℕ)
    → j < length bs
    → length (flatten (set bs j b')) + length (get_or bs j []) ≡ length (flatten bs) + length b'
unfolding flatten
length-flatten-set j [] b' low = absurd (omega arith)
length-flatten-set zero (b ∷ bs) b' low =
    omega (arith, length-append b (flatten bs), length-append b' (flatten bs))
length-flatten-set (suc j) (b ∷ bs) b' low = omega (
  arith,
  length-flatten-set j bs b' (omega arith),
  length-append b (flatten bs),
  length-append b (flatten (set bs j b')),
)

pub flatten-replicate : (m : ℕ) → ◌≡◌ {A = List ℕ} (flatten (replicate m [])) []
unfolding flatten
flatten-replicate zero = refl
flatten-replicate (suc m) = flatten-replicate m
