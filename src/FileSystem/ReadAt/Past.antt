-- ===== src/FileSystem/ReadAt/Past.antt =====
-- A read behind the first fragment.
use everything.Base.{
  ℕ, zero, suc, ◌+◌, ◌-◌, ◌*◌, ◌/◌, ◌≤◌, ◌<◌, ◌≡◌, refl, ap, inl, inr, false, none, some, List, [],
  ◌∷◌, ◌++◌, length, length-append, length-drop, length-replicate, get_elem?, take, drop, replicate,
  leb, ◌==◌, ◌||◌, arith, Bool-cases, Option-cases, ◌>>=◌,
}
use native.Mathlib.Numerals.{add-one}
use everything.Disk.{HostFile, Disk, read_length}
use everything.FileSystem.Inode.{FileHeader, gather}
use everything.FileSystem.ReadAt.{store_bytes_at, read_fragments, read_part, read_at}

length-take_le : (n : ℕ) (xs : List ℕ) → length (take n xs) ≤ n
length-take_le zero xs = omega arith
length-take_le (suc n) [] = omega arith
length-take_le (suc n) (x ∷ xs) = omega (arith, length-take_le n xs)

some-out : {A : Type 0} {a b : A} → some a ≡ some b → a ≡ b
some-out e = cc

-- A read stores nothing behind the buffer.
length-store_bytes_at :
    (buf : List ℕ) (at len : ℕ) (bytes : List ℕ) {buf' : List ℕ}
    → store_bytes_at buf at len bytes ≡ some buf'
    → length buf' ≤ length buf
unfolding store_bytes_at
length-store_bytes_at buf at len bytes {buf'} e = elim (Bool-cases (leb (at + len) (length buf))) [
  | inr over ↦ let no_result = rw over at e in absurd cc
  | inl fits ↦
      let room : at + len ≤ length buf = ground arith in
      let it : take at buf ++ (take len bytes ++ drop (at + len) buf) ≡ buf' =
        some-out (rw fits at e) in
      omega (
        arith,
        ap length it,
        length-append (take at buf) (take len bytes ++ drop (at + len) buf),
        length-append (take len bytes) (drop (at + len) buf),
        length-take_le at buf,
        length-take_le len bytes,
        length-drop (at + len) buf,
      )
]

store-over :
    (buf : List ℕ) (at len : ℕ) (bytes : List ℕ)
    → length buf < at + len
    → store_bytes_at buf at len bytes ≡ none
unfolding store_bytes_at
store-over buf at len bytes h =
    let over : leb (at + len) (length buf) ≡ false = ground arith in rw over refl

module _ {F : Type 0} (host : HostFile F) where
  -- A round fails if what follows its read does.
  round-fails :
      (clock : ℕ → ℕ → ℕ) (left i : ℕ) (fragments buf : List ℕ) (d : Disk F)
      → ((bytes : List ℕ) (d' : Disk F)
          → (store_bytes_at buf (i * 1024) 1024 bytes >>= λ buf'.
              read_fragments host clock left (i + 1) fragments buf' d')
            ≡ none)
      → read_fragments host clock (suc left) i fragments buf d ≡ none
  unfolding read_fragments
  round-fails clock left i fragments buf d h = elim (Option-cases (get_elem? fragments i)) [
    | inl e ↦ rw e refl
    | inr (fragment, e) ↦ elim (Option-cases (read_length host (clock i) (fragment * 8) 1024 d)) [
      | inl e' ↦ rw (e, e') refl
      | inr ((bytes, d'), e') ↦ rw (e, e') (h bytes d')
    ]
  ]

  read_fragments-past :
      (clock : ℕ → ℕ → ℕ) (left i : ℕ) (fragments buf : List ℕ) (d : Disk F)
      → length buf < (i + suc left) * 1024
      → read_fragments host clock (suc left) i fragments buf d ≡ none
  read_fragments-past clock zero i fragments buf d short =
      round-fails clock zero i fragments buf d
        (λ bytes d'. rw (store-over buf (i * 1024) 1024 bytes (omega arith)) refl)
  read_fragments-past clock (suc left) i fragments buf d short =
      round-fails clock (suc left) i fragments buf d (λ bytes d'.
        elim (Option-cases (store_bytes_at buf (i * 1024) 1024 bytes)) [
          | inl e ↦ rw e refl
          | inr (buf', e) ↦ rw e (
              read_fragments-past clock left (i + 1) fragments buf' d'
                (omega (arith, length-store_bytes_at buf (i * 1024) 1024 bytes e)))
        ])

  part-past :
      (clock : ℕ → ℕ → ℕ) (hdr : FileHeader) (indirect : List ℕ) (n position : ℕ) (d : Disk F)
      → 0 < n
      → 1024 ≤ position
      → read_part host clock hdr indirect n position d ≡ none
  unfolding read_part
  part-past clock hdr indirect n position d h behind = elim (Option-cases (gather hdr indirect)) [
    | inl e ↦ rw e refl
    | inr (fragments, e) ↦
        let more : ℕ = (position + n - 1) / 1024 - position / 1024 in
        let over =
          read_fragments-past clock more (position / 1024) fragments
            (replicate ((more + 1) * 1024) 0) d
            (omega (arith, length-replicate {A = ℕ} ((more + 1) * 1024) 0)) in
        rw (e, add-one more, (rw (add-one more) at over)) refl
  ]

  -- ReadAt of one or more bytes from such a position is `none`, whatever the disk.
  pub read_at-past :
      (clock : ℕ → ℕ → ℕ) (hdr : FileHeader) (indirect : List ℕ) (num_bytes position : ℕ)
      (d : Disk F)
      → 0 < num_bytes
      → 1024 ≤ position
      → position < hdr.num_bytes
      → read_at host clock hdr indirect num_bytes position d ≡ none
  unfolding read_at
  read_at-past clock hdr indirect num_bytes position d some_bytes behind inside =
      let asked : (num_bytes == 0 || leb hdr.num_bytes position) ≡ false = ground arith in
      elim (Bool-cases (leb hdr.num_bytes (position + num_bytes))) [
        | inl e ↦
            rw (asked, e)
              (part-past clock hdr indirect (hdr.num_bytes - position) position d (omega arith)
                behind)
        | inr e ↦
            rw (asked, e) (part-past clock hdr indirect num_bytes position d some_bytes behind)
      ]
