-- ===== src/FileSystem/Fragments/Written.antt =====
-- The loop that writes a buffer to fragments that differ.
use everything.Base.{
  ℕ, zero, suc, ◌+◌, ◌*◌, ◌≤◌, ◌<◌, ◌≡◌, ◌≢◌, refl, sym, ap, ◌∙◌, ◌⊎◌, inl, inr, false, Option,
  some, List, [], ◌∷◌, ◌++◌, length, length-append, length-drop, length-take, get_elem?, take,
  take-append-drop, append_assoc, drop, drop-drop, leb, Bool-cases, arith, subst,
}
use everything.Disk.{HostFile, Disk}
use everything.Disk.Sectors.{Holds, Holds-kept, offset, write_length-FragmentWritten}
use everything.FileSystem.Layout.{num_sectors}
use everything.FileSystem.Inode.{read_ints}
use everything.FileSystem.ReadAt.Within.{contents, InFragments}
use everything.FileSystem.Fragments.{write_fragments}

abbrev pub Apart : ℕ → List ℕ → Type 0
Apart p [] = Unit {0}
Apart p (q ∷ qs) = (p ≢ q) × Apart p qs

-- Fragments that differ and lie on the disk.
abbrev pub Spread : List ℕ → Type 0
Spread [] = Unit {0}
Spread (p ∷ ps) = (p * 8 + 8 ≤ num_sectors) × Apart p ps × Spread ps

-- The `len` bytes at an offset of the file of the host lie in none of the fragments.
abbrev pub Outside : ℕ → ℕ → List ℕ → Type 0
Outside at len [] = Unit {0}
Outside at len (p ∷ ps) = ((at + len ≤ 1024 * p + 4) ⊎ (1024 * p + 1028 ≤ at)) × Outside at len ps

-- The fragments are those from index `i` on.
abbrev pub Listed : List ℕ → ℕ → List ℕ → Type 0
Listed fragments i [] = Unit {0}
Listed fragments i (p ∷ ps) = (get_elem? fragments i ≡ some p) × Listed fragments (i + 1) ps

sides :
    (p q j : ℕ)
    → j < 8
    → p ≢ q
    → (128 * (p * 8 + j) + 4 + 128 ≤ 1024 * q + 4) ⊎ (1024 * q + 1028 ≤ 128 * (p * 8 + j) + 4)
sides p q j h a = elim (Bool-cases (leb (p + 1) q)) [
  | inl e ↦ inl (ground arith)
  | inr e ↦ inr (ground arith)
]

pub Apart-Outside :
    (p j : ℕ) (qs : List ℕ) → j < 8 → Apart p qs → Outside (128 * (p * 8 + j) + 4) 128 qs
Apart-Outside p j [] h a = tt
Apart-Outside p j (q ∷ qs) h (a, rest) = (sides p q j h a, Apart-Outside p j qs h rest)

get_elem?-append :
    (before rest : List ℕ) (p : ℕ) → get_elem? (before ++ (p ∷ rest)) (length before) ≡ some p
get_elem?-append [] rest p = refl
get_elem?-append (x ∷ before) rest p = get_elem?-append before rest p

pub Listed-append :
    (before ps rest : List ℕ) (i : ℕ) → length before ≡ i → Listed (before ++ (ps ++ rest)) i ps
Listed-append before [] rest i h = tt
Listed-append before (p ∷ ps) rest i h =
    let more =
      Listed-append (before ++ (p ∷ [])) ps rest (i + 1)
        (omega (arith, length-append before (p ∷ []))) in
    (
      rw (← h) (get_elem?-append before (ps ++ rest) p),
      subst (λ (xs : List ℕ). Listed xs (i + 1) ps) (append_assoc before (p ∷ []) (ps ++ rest))
          more,
    )

pub read_ints-append : (ps rest : List ℕ) → read_ints (length ps) (ps ++ rest) ≡ some ps
unfolding read_ints
read_ints-append [] rest = refl
read_ints-append (p ∷ ps) rest = rw (read_ints-append ps rest) refl

-- The blocks of a buffer.
unfoldable pub chop : ℕ → List ℕ → List (List ℕ)
chop zero buf = []
chop (suc n) buf = take 1024 buf ∷ chop n (drop 1024 buf)

pub contents-chop : (n : ℕ) (buf : List ℕ) → length buf ≡ n * 1024 → contents (chop n buf) ≡ buf
unfolding chop
contents-chop zero [] h = refl
contents-chop zero (x ∷ buf) h = absurd (omega arith)
contents-chop (suc n) buf h =
    ap (λ (xs : List ℕ). take 1024 buf ++ xs)
      (contents-chop n (drop 1024 buf) (omega (arith, length-drop 1024 buf)))
    ∙ take-append-drop 1024 buf

pub length-chop : (n : ℕ) (buf : List ℕ) → length (chop n buf) ≡ n
unfolding chop
length-chop zero buf = refl
length-chop (suc n) buf = ap suc (length-chop n (drop 1024 buf))

module _ {F : Type 0} (host : HostFile F) where
  -- The fragments hold the bytes of a buffer.
  abbrev pub Held : F → List ℕ → List ℕ → Type 0
  Held f [] buf = Unit {0}
  Held f (p ∷ ps) buf = Holds host f 8 0 (p * 8) (take 1024 buf) × Held f ps (drop 1024 buf)

  pub Held-InFragments :
      (f : F) (fragments : List ℕ) (i : ℕ) (ps buf : List ℕ)
      → length buf ≡ length ps * 1024
      → Listed fragments i ps
      → Spread ps
      → Held f ps buf
      → InFragments host f fragments i (chop (length ps) buf)
  unfolding chop
  Held-InFragments f fragments i [] buf size l s h = tt
  Held-InFragments f fragments i (p ∷ ps) buf size (l, ls) (s, a, ss) (h, hs) = (
    (p, l, s, length-take 1024 buf (omega arith), h),
    Held-InFragments f fragments (i + 1) ps (drop 1024 buf) (omega (arith, length-drop 1024 buf)) ls
        ss hs,
  )

  pub record AllWritten (ps buf : List ℕ) (d : Disk F) (result : Option (Disk F)) : Type 0 where
    pub out : Disk F
    pub returns : result ≡ some out
    pub done : out.active ≡ false
    pub held : Held out.file ps buf
    pub others :
        (at len : ℕ) → Outside at len ps → host.read out.file at len ≡ host.read d.file at len

  pub write_fragments-AllWritten :
      (clock : ℕ → ℕ → ℕ) (i : ℕ) (fragments ps buf : List ℕ) (d : Disk F)
      → d.active ≡ false
      → length buf ≡ (i + length ps) * 1024
      → Listed fragments i ps
      → Spread ps
      → AllWritten ps
          (drop (i * 1024) buf)
          d
          (write_fragments host clock (length ps) i fragments buf d)
  unfolding write_fragments
  write_fragments-AllWritten clock i fragments [] buf d idle size l s = record {
    out = d;
    returns = refl;
    done = idle;
    held = tt;
    others = λ at len h. refl;
  }
  write_fragments-AllWritten clock i fragments (p ∷ ps) buf d idle size (l, ls) (s, a, ss) =
      let rest : List ℕ = drop (i * 1024) buf in
      let w =
        write_length-FragmentWritten host (clock i) (p * 8) rest d idle s
          (omega (arith, length-drop (i * 1024) buf)) in
      let m =
        write_fragments-AllWritten clock (i + 1) fragments ps buf w.out w.done (omega arith) ls
          ss in
      record {
        out = m.out;
        returns = rw (l, w.returns) m.returns;
        done = m.done;
        held = (
          Holds-kept host w.out.file m.out.file 8 0 (p * 8) (take 1024 rest)
              (λ j low high.
                m.others (offset host (p * 8 + j)) 128 (Apart-Outside p j ps (omega arith) a))
              w.holds,
          subst (λ (xs : List ℕ). Held m.out.file ps xs)
              (sym (drop-drop 1024 (i * 1024) buf ∙ ap (λ (k : ℕ). drop k buf) (omega arith)))
              m.held,
        );
        others = λ at len (h, hs).
            m.others at len hs
            ∙ w.others at len (elim h [ inl e ↦ inl (omega arith) | inr e ↦ inr (omega arith) ]);
      }
