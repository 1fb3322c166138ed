-- ===== src/FileSystem/Allocate/Inside.antt =====
-- Allocate for a file that has enough fragments already.
use everything.Base.{
  ℕ, zero, suc, ◌-◌, ◌*◌, ◌≤◌, ◌≡◌, refl, ap, ◌⊎◌, inl, inr, true, false, Option, none, some, List,
  [], ◌∷◌, arith, ◌&&◌, ltb, leb, length, length-append, ◌++◌, subst, get_elem?, Bool-cases,
}
use everything.Bitmap.{Bitmap}
use everything.FileSystem.Inode.{FileHeader, gather, read_ints}
use everything.FileSystem.Allocate.{fragments_for, resize, allocate}

pub no_block :
    (old fragments new : ℕ)
    → old ≡ fragments
    → ltb old new ≡ false
    → (leb fragments 16 && ltb 16 new) ≡ false
no_block old fragments new counted e = ground arith

pub not_fewer : (a b : ℕ) → ltb a b ≡ false → b ≤ a
not_fewer a b e = ground arith

Counted : ℕ → Option (List ℕ) → Type 0
Counted k result = (result ≡ none) ⊎ ((ys : List ℕ) × (result ≡ some ys) × (length ys ≡ k))

read_ints-Counted : (k : ℕ) (xs : List ℕ) → Counted k (read_ints k xs)
unfolding read_ints Counted
read_ints-Counted zero xs = inr ([], refl, refl)
read_ints-Counted (suc k) [] = inl refl
read_ints-Counted (suc k) (x ∷ xs) = elim (read_ints-Counted k xs) [
  | inl e ↦ inl (rw e refl)
  | inr (ys, e, c) ↦ inr (x ∷ ys, rw e refl, ap suc c)
]

gather-Counted :
    (hdr : FileHeader) (indirect : List ℕ) → Counted hdr.num_fragments (gather hdr indirect)
unfolding gather Counted
gather-Counted hdr indirect = elim (Bool-cases (ltb 16 hdr.num_fragments)) [
  | inr few ↦ rw few (read_ints-Counted hdr.num_fragments hdr.data_fragments)
  | inl many ↦ rw many (elim (Bool-cases (leb hdr.num_fragments 128)) [
    | inr over ↦ inl (rw over refl)
    | inl room ↦ elim (read_ints-Counted 16 hdr.data_fragments) [
      | inl e ↦ inl (rw (room, e) refl)
      | inr (xs, e, c) ↦ elim (read_ints-Counted (hdr.num_fragments - 16) indirect) [
        | inl e' ↦ inl (rw (room, e, e') refl)
        | inr (ys, e', c') ↦
            inr (xs ++ ys, rw (room, e, e') refl, ground (arith, length-append xs ys))
      ]
    ]
  ])
]

pub gather-count :
    (hdr : FileHeader) (indirect old : List ℕ)
    → gather hdr indirect ≡ some old
    → length old ≡ hdr.num_fragments
unfolding Counted
gather-count hdr indirect old e = elim (gather-Counted hdr indirect) [
  | inl f ↦ absurd cc
  | inr (ys, f, c) ↦
      let it : ys ≡ old = cc in subst (λ (t : List ℕ). length t ≡ hdr.num_fragments) it c
]

pub resize-keeps :
    (n : ℕ) (hdr : FileHeader) (indirect old : List ℕ) (on_disk maps : List Bitmap)
    (last_fragment new_length : ℕ)
    → get_elem? old (length old - 1) ≡ some last_fragment
    → fragments_for new_length ≤ length old
    → resize n hdr indirect on_disk old new_length maps
      ≡ some (record {
        success = true;
        header = record hdr { num_bytes = new_length };
        indirect = indirect;
        maps = on_disk;
      })
unfolding resize
resize-keeps n hdr indirect old on_disk maps last_fragment new_length last h =
    let fewer : ltb (length old) (fragments_for new_length) ≡ false = ground arith in
    rw (last, fewer) refl

pub fragments_enough : (n k : ℕ) → n ≤ k * 1024 → fragments_for n ≤ k
unfolding fragments_for
fragments_enough n k h = ground arith

not_more : (a b : ℕ) → b ≤ a → ltb a b ≡ false
not_more a b h = ground arith

-- The file keeps its fragments and gets the new length.
pub allocate-keeps :
    (n : ℕ) (hdr : FileHeader) (indirect old : List ℕ) (maps : List Bitmap)
    (last_fragment new_length : ℕ)
    → gather hdr indirect ≡ some old
    → get_elem? old (length old - 1) ≡ some last_fragment
    → fragments_for new_length ≤ length old
    → allocate n hdr indirect maps new_length
      ≡ some (record {
        success = true;
        header = record hdr { num_bytes = new_length };
        indirect = indirect;
        maps = maps;
      })
unfolding allocate
allocate-keeps n hdr indirect old maps last_fragment new_length reads last h =
    let enough : ltb (length old) (fragments_for new_length) ≡ false = not_more _ _ h in
    let direct =
      no_block (length old) hdr.num_fragments (fragments_for new_length)
        (gather-count hdr indirect old reads) enough in
    rw (reads, direct) (resize-keeps n hdr indirect old maps maps last_fragment new_length last h)
