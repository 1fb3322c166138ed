-- ===== src/FileSystem/ReadAt/Overrun.antt =====
-- A read behind the first fragment of a file whose fragments can all be read.
use everything.Base.{
  ℕ, suc, ◌+◌, ◌-◌, ◌*◌, ◌/◌, ◌≤◌, ◌<◌, ◌≡◌, refl, sym, ◌∙◌, ◌⊎◌, inl, inr, true, false, none, some,
  List, [], ◌∷◌, ◌++◌, length, length-append, length-drop, length-take, length-replicate, get_elem?,
  take, drop, replicate, leb, arith, Bool-cases, if◌then◌else◌, subst,
}
use everything.Disk.{HostFile, Disk, read_length}
use everything.Disk.Sectors.{read_length-Holds}
use everything.FileSystem.Inode.{FileHeader, gather}
use everything.FileSystem.ReadAt.{store_bytes_at, read_fragments, read_at}
use everything.FileSystem.ReadAt.Past.{read_at-past}
use everything.FileSystem.ReadAt.Within.{InFragments}

stored :
    (buf : List ℕ) (at : ℕ) (block : List ℕ)
    → length block ≡ 1024
    → at + 1024 ≤ length buf
    → (buf' : List ℕ) × (store_bytes_at buf at 1024 block ≡ some buf') × (length buf' ≡ length buf)
unfolding store_bytes_at
stored buf at block size fits =
    let room : leb (at + 1024) (length buf) ≡ true = ground arith in
    (
      take at buf ++ (take 1024 block ++ drop (at + 1024) buf),
      rw room refl,
      omega (
        arith,
        length-append (take at buf) (take 1024 block ++ drop (at + 1024) buf),
        length-append (take 1024 block) (drop (at + 1024) buf),
        length-take at buf (omega arith),
        length-take 1024 block (omega arith),
        length-drop (at + 1024) buf,
      ),
    )

fit_cases : (a b : ℕ) → (a ≤ b) ⊎ (b < a)
fit_cases a b = elim (Bool-cases (leb a b)) [
  | inl e ↦ inl (ground arith)
  | inr e ↦ inr (ground arith)
]

module _ {F : Type 0} (host : HostFile F) where
  -- The loop over the fragments goes well for some rounds; the next fragment can be read as well, and its
  -- 1024 bytes do not fit behind their place in the buffer.
  pub record Overrun (clock : ℕ → ℕ → ℕ) (i : ℕ) (fragments buf : List ℕ) (d : Disk F)
      : Type 0 where
    pub rounds : ℕ
    pub index : ℕ
    pub is_index : index ≡ i + rounds
    pub filled : List ℕ
    pub mid : Disk F
    pub goes_well : read_fragments host clock rounds i fragments buf d ≡ some (filled, mid)
    pub same_size : length filled ≡ length buf
    pub fragment : ℕ
    pub listed : get_elem? fragments index ≡ some fragment
    pub bytes : List ℕ
    pub after : Disk F
    pub reads : read_length host (clock index) (fragment * 8) 1024 mid ≡ some (bytes, after)
    pub is_block : length bytes ≡ 1024
    pub over : length filled < index * 1024 + 1024

  first-Overrun :
      (clock : ℕ → ℕ → ℕ) (i : ℕ) (fragments buf block : List ℕ) (p : ℕ) (d d' : Disk F)
      → get_elem? fragments i ≡ some p
      → read_length host (clock i) (p * 8) 1024 d ≡ some (block, d')
      → length block ≡ 1024
      → length buf < i * 1024 + 1024
      → Overrun clock i fragments buf d
  unfolding read_fragments
  first-Overrun clock i fragments buf block p d d' at reads size over = record {
    rounds = 0;
    index = i;
    is_index = omega arith;
    filled = buf;
    mid = d;
    goes_well = refl;
    same_size = refl;
    fragment = p;
    listed = at;
    bytes = block;
    after = d';
    reads = reads;
    is_block = size;
    over = over;
  }

  next-Overrun :
      (clock : ℕ → ℕ → ℕ) (i : ℕ) (fragments buf buf' block : List ℕ) (p : ℕ) (d d' : Disk F)
      → get_elem? fragments i ≡ some p
      → read_length host (clock i) (p * 8) 1024 d ≡ some (block, d')
      → store_bytes_at buf (i * 1024) 1024 block ≡ some buf'
      → length buf' ≡ length buf
      → Overrun clock (i + 1) fragments buf' d'
      → Overrun clock i fragments buf d
  unfolding read_fragments
  next-Overrun clock i fragments buf buf' block p d d' at reads stores size o = record {
    rounds = suc o.rounds;
    index = o.index;
    is_index = omega (arith, o.is_index);
    filled = o.filled;
    mid = o.mid;
    goes_well = rw (at, reads, stores) o.goes_well;
    same_size = o.same_size ∙ size;
    fragment = o.fragment;
    listed = o.listed;
    bytes = o.bytes;
    after = o.after;
    reads = o.reads;
    is_block = o.is_block;
    over = o.over;
  }

  fragments-Overrun :
      (clock : ℕ → ℕ → ℕ) (i : ℕ) (fragments buf : List ℕ) (block : List ℕ) (blocks : List (List ℕ))
      (d : Disk F)
      → d.active ≡ false
      → InFragments host d.file fragments i (block ∷ blocks)
      → length buf < (i + suc (length blocks)) * 1024
      → Overrun clock i fragments buf d
  fragments-Overrun clock i fragments buf block [] d idle ((p, at, on_disk, size, held), more)
        short =
      let (d', reads, same, idle') =
        read_length-Holds host (clock i) (p * 8) block d idle on_disk size held in
      first-Overrun clock i fragments buf block p d d' at reads size (omega arith)
  fragments-Overrun clock i fragments buf block (next ∷ blocks) d idle
        ((p, at, on_disk, size, held), more) short =
      let (d', reads, same, idle') =
        read_length-Holds host (clock i) (p * 8) block d idle on_disk size held in
      elim (fit_cases (i * 1024 + 1024) (length buf)) [
        | inr over ↦ first-Overrun clock i fragments buf block p d d' at reads size over
        | inl room ↦
            let (buf', stores, kept) = stored buf (i * 1024) block size room in
            next-Overrun clock i fragments buf buf' block p d d' at reads stores kept (
              fragments-Overrun clock (i + 1) fragments buf' next blocks d' idle'
                (subst (λ (f : F). InFragments host f fragments (i + 1) (next ∷ blocks)) (sym same)
                  more)
                (omega arith))
      ]

  -- With no request in progress, a file whose fragments can be gathered and, from that of the
  -- position to that of the end of the request, hold blocks of 1024 bytes, and a position behind
  -- the first fragment and before the end of the file, ReadAt of one or more bytes returns none:
  -- after some rounds of its loop that go well from the buffer of as many fragments as the request
  -- has, the next fragment is there and can be read, and the place where its 1024 bytes go ends
  -- behind the buffer.
  pub read_at-Overrun :
      (clock : ℕ → ℕ → ℕ) (hdr : FileHeader) (indirect fragments : List ℕ) (blocks : List (List ℕ))
      (num_bytes position n first count : ℕ) (d : Disk F)
      → d.active ≡ false
      → gather hdr indirect ≡ some fragments
      → 0 < num_bytes
      → 1024 ≤ position
      → position < hdr.num_bytes
      → n
        ≡ (if leb hdr.num_bytes (position + num_bytes) then hdr.num_bytes - position else num_bytes)
      → first ≡ position / 1024
      → count ≡ (position + n - 1) / 1024 - first + 1
      → length blocks ≡ count
      → InFragments host d.file fragments first blocks
      → Overrun clock first fragments (replicate (count * 1024) 0) d
        × (read_at host clock hdr indirect num_bytes position d ≡ none)
  read_at-Overrun clock hdr indirect fragments [] num_bytes position n first count d idle reads
        some_bytes behind inside asked is_first is_count size held =
      absurd (omega arith)
  read_at-Overrun clock hdr indirect fragments (block ∷ blocks) num_bytes position n first count d
        idle reads some_bytes behind inside asked is_first is_count size held =
      (
        fragments-Overrun clock first fragments (replicate (count * 1024) 0) block blocks d idle
            held (omega (arith, length-replicate {A = ℕ} (count * 1024) 0)),
        read_at-past host clock hdr indirect num_bytes position d some_bytes behind inside,
      )
