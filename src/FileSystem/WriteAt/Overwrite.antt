-- ===== src/FileSystem/WriteAt/Overwrite.antt =====
-- The fragments of a file as one sequence of bytes, and a part of it overwritten.
use everything.Base.{
  ℕ, zero, suc, ◌+◌, ◌-◌, ◌*◌, ◌≤◌, ◌≡◌, refl, sym, ap, ◌∙◌, true, false, some, List, [], ◌∷◌, ◌++◌,
  length, length-append, length-drop, length-take, length-replicate, get_or, get_elem?-eq-get_or,
  take, take-append, take-add, append_assoc, append_nil, drop, drop-append, drop-drop, replicate,
  leb, ◌==◌, arith, subst,
}
use everything.Disk.{HostFile, Disk}
use everything.Disk.Sectors.{Holds-kept, offset}
use everything.FileSystem.ReadAt.{read_fragments}
use everything.FileSystem.ReadAt.Within.{contents, read_fragments-AllRead}
use everything.FileSystem.Fragments.{copy_bytes, write_fragments}
use everything.FileSystem.Fragments.Written.{
  Apart, Apart-Outside, Spread, Outside, Listed, Listed-append, chop, contents-chop, length-chop,
  Held, Held-InFragments, write_fragments-AllWritten,
}
use everything.FileSystem.WriteAt.{move_fragment, move_fragments}

Apart-drop : (k p : ℕ) (ps : List ℕ) → Apart p ps → Apart p (drop k ps)
Apart-drop zero p ps a = a
Apart-drop (suc k) p [] a = tt
Apart-drop (suc k) p (q ∷ ps) (a, rest) = Apart-drop k p ps rest

pub Spread-drop : (k : ℕ) (ps : List ℕ) → Spread ps → Spread (drop k ps)
Spread-drop zero ps s = s
Spread-drop (suc k) [] s = tt
Spread-drop (suc k) (p ∷ ps) (s, a, rest) = Spread-drop k ps rest

pub Outside-drop : (k at len : ℕ) (ps : List ℕ) → Outside at len ps → Outside at len (drop k ps)
Outside-drop zero at len ps h = h
Outside-drop (suc k) at len [] h = tt
Outside-drop (suc k) at len (p ∷ ps) (h, rest) = Outside-drop k at len ps rest

-- A part of a sequence of bytes overwritten.
abbrev pub overwrite : List ℕ → ℕ → List ℕ → ℕ → List ℕ
overwrite bytes n whole position =
    take position whole ++ (take n bytes ++ drop (position + n) whole)

-- The part may as well be overwritten in the bytes from `skip` on.
pub overwrite-drop :
    (bytes : List ℕ) (n : ℕ) (whole : List ℕ) (position skip : ℕ)
    → skip ≤ position
    → take skip whole ++ overwrite bytes n (drop skip whole) (position - skip)
      ≡ overwrite bytes n whole position
overwrite-drop bytes n whole position skip h =
    let at : ℕ = position - skip in
    let front : take position whole ≡ take skip whole ++ take at (drop skip whole) =
      ap (λ (k : ℕ). take k whole) (omega arith) ∙ take-add skip at whole in
    let back : drop (at + n) (drop skip whole) ≡ drop (position + n) whole =
      drop-drop (at + n) skip whole ∙ ap (λ (k : ℕ). drop k whole) (omega arith) in
    rw (front, back)
      (sym (
        append_assoc (take skip whole) (take at (drop skip whole))
          (take n bytes ++ drop (position + n) whole)))

pub below : (m n : ℕ) → m ≤ n → leb m n ≡ true
below m n h = ground arith

length-overwrite :
    (bytes : List ℕ) (n : ℕ) (whole : List ℕ) (position : ℕ)
    → n ≤ length bytes
    → position + n ≤ length whole
    → length (overwrite bytes n whole position) ≡ length whole
length-overwrite bytes n whole position enough fits = omega (
  arith,
  length-append (take position whole) (take n bytes ++ drop (position + n) whole),
  length-append (take n bytes) (drop (position + n) whole),
  length-take position whole (omega arith),
  length-take n bytes enough,
  length-drop (position + n) whole,
)

module _ {F : Type 0} (host : HostFile F) where
  pub move_fragments-same :
      (clock : ℕ → ℕ → ℕ → ℕ) (left i : ℕ) (old : List ℕ) (d : Disk F)
      → i + left ≤ length old
      → move_fragments host clock left i old old d ≡ some d
  unfolding move_fragments move_fragment
  move_fragments-same clock zero i old d h = refl
  move_fragments-same clock (suc left) i old d h =
      let there = get_elem?-eq-get_or old i 0 (omega arith) in
      let same : (get_or old i 0 == get_or old i 0) ≡ true = ground arith in
      rw (there, same) (move_fragments-same clock left (i + 1) old d (omega arith))

  pub Held-drop :
      (f : F) (k : ℕ) (ps whole : List ℕ)
      → Held host f ps whole
      → Held host f (drop k ps) (drop (k * 1024) whole)
  Held-drop f zero ps whole h = h
  Held-drop f (suc k) [] whole h = tt
  Held-drop f (suc k) (p ∷ ps) whole (h, hs) =
      subst (λ (xs : List ℕ). Held host f (drop k ps) xs)
        (drop-drop (k * 1024) 1024 whole ∙ ap (λ (n : ℕ). drop n whole) (omega arith))
        (Held-drop f k ps (drop 1024 whole) hs)

  pub Held-joined :
      (f f' : F) (k : ℕ) (ps whole buf : List ℕ)
      → k ≤ length ps
      → length whole ≡ length ps * 1024
      → ((at len : ℕ) → Outside at len (drop k ps) → host.read f' at len ≡ host.read f at len)
      → Spread ps
      → Held host f ps whole
      → Held host f' (drop k ps) buf
      → Held host f' ps (take (k * 1024) whole ++ buf)
  Held-joined f f' zero ps whole buf fits size same s h h' = h'
  Held-joined f f' (suc k) [] whole buf fits size same s h h' = absurd (omega arith)
  Held-joined f f' (suc k) (p ∷ ps) whole buf fits size same (s, a, ss) (h, hs) h' =
      let block : List ℕ = take 1024 whole in
      let rest : List ℕ = take (k * 1024) (drop 1024 whole) ++ buf in
      let full : length block ≡ 1024 = length-take 1024 whole (omega arith) in
      let split : take (suc k * 1024) whole ++ buf ≡ block ++ rest =
        ap (λ (n : ℕ). take n whole ++ buf) (omega arith)
        ∙ ap (λ (xs : List ℕ). xs ++ buf) (take-add 1024 (k * 1024) whole)
        ∙ append_assoc block (take (k * 1024) (drop 1024 whole)) buf in
      rw split (
        rw (take-append 1024 block rest full) (
            Holds-kept host f f' 8 0 (p * 8) block
              (λ j low high.
                same (offset host (p * 8 + j)) 128
                  (Apart-Outside p j (drop k ps) (omega arith) (Apart-drop k p ps a)))
              h),
        rw (drop-append 1024 0 block rest full) (
            Held-joined f f' k ps (drop 1024 whole) buf (omega arith)
              (omega (arith, length-drop 1024 whole)) same ss hs h'),
      )

  -- The fragments from the position on, `k` of them, are read, changed and written.
  pub record TailWritten (clock : ℕ → ℕ → ℕ → ℕ) (k : ℕ) (rest tail bytes : List ℕ)
      (num_bytes at : ℕ) (d : Disk F) : Type 0 where
    pub mid : Disk F
    pub out : Disk F
    pub reads : read_fragments host (clock 2) k 0 rest (replicate (k * 1024) 0) d ≡ some (tail, mid)
    pub copies : copy_bytes bytes num_bytes tail at ≡ some (overwrite bytes num_bytes tail at)
    pub writes :
        write_fragments host (clock 3) k 0 rest (overwrite bytes num_bytes tail at) mid ≡ some out
    pub done : out.active ≡ false
    pub held : Held host out.file rest (overwrite bytes num_bytes tail at)
    pub others :
        (o len : ℕ) → Outside o len rest → host.read out.file o len ≡ host.read d.file o len

  pub tail-Written :
      (clock : ℕ → ℕ → ℕ → ℕ) (rest tail bytes : List ℕ) (num_bytes at : ℕ) (d : Disk F)
      → d.active ≡ false
      → Spread rest
      → length tail ≡ length rest * 1024
      → Held host d.file rest tail
      → num_bytes ≤ length bytes
      → at + num_bytes ≤ length tail
      → TailWritten clock (length rest) rest tail bytes num_bytes at d
  unfolding copy_bytes
  tail-Written clock rest tail bytes num_bytes at d idle spread size held enough fits =
      let buf' : List ℕ = overwrite bytes num_bytes tail at in
      let blank : List ℕ = replicate (length rest * 1024) 0 in
      let listed =
        subst (λ (xs : List ℕ). Listed xs 0 rest) (append_nil rest)
          (Listed-append [] rest [] 0 refl) in
      let blocks : List (List ℕ) = chop (length rest) tail in
      let count : length blocks ≡ length rest = length-chop (length rest) tail in
      let r =
        read_fragments-AllRead host (clock 2) 0 rest [] blank blocks d idle refl
          (length-replicate (length rest * 1024) 0 ∙ ap (λ (k : ℕ). k * 1024) (sym count))
          (Held-InFragments host d.file rest 0 rest tail size listed spread held) in
      let read_back =
        subst
          (λ (k : ℕ).
            read_fragments host (clock 2) k 0 rest blank d ≡ some (contents blocks, r.out))
          count r.returns in
      let same_size = length-overwrite bytes num_bytes tail at enough fits in
      let w =
        write_fragments-AllWritten host (clock 3) 0 rest rest buf' r.out r.done (omega arith) listed
          spread in
      record {
        mid = r.out;
        out = w.out;
        reads =
            read_back
            ∙ ap (λ (xs : List ℕ). some (xs, r.out)) (contents-chop (length rest) tail size);
        copies =
            rw (below num_bytes (length bytes) enough, below (at + num_bytes) (length tail) fits)
              refl;
        writes = w.returns;
        done = w.done;
        held = w.held;
        others = λ o len h. w.others o len h ∙ ap (λ (f : F). host.read f o len) r.file_is;
      }
