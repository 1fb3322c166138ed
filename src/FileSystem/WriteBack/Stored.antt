-- ===== src/FileSystem/WriteBack/Stored.antt =====
-- An inode that is written back can be read from its sector, and nothing else changes.
use everything.Base.{
  ℕ, ◌+◌, ◌*◌, ◌≤◌, ◌<◌, ◌≡◌, refl, ap, ◌∙◌, ◌⊎◌, inl, inr, false, Option, some, List, [], ◌∷◌,
  length, length-append, take, take_all, drop, arith,
}
use everything.Disk.{HostFile, Disk, read_length}
use everything.Disk.Sectors.{Holds-kept, offset, read_length-write_length}
use everything.FileSystem.Layout.{SuperBlock, first_sector, num_sectors}
use everything.FileSystem.Inode.{FileHeader}
use everything.FileSystem.Fragments.Written.{Outside, Held}
use everything.FileSystem.WriteBack.{int_of, inode_ints, ints_bytes, write_back}

length-ints_bytes : (xs : List ℕ) → length (ints_bytes xs) ≡ 4 * length xs
unfolding ints_bytes
length-ints_bytes [] = refl
length-ints_bytes (x ∷ xs) = omega (arith, length-ints_bytes xs)

length-inode_ints :
    (hdr : FileHeader) → length hdr.data_fragments ≡ 16 → length (inode_ints hdr) ≡ 25
unfolding inode_ints
length-inode_ints hdr h =
    omega (arith, length-append hdr.data_fragments (int_of hdr.indirect_block ∷ []))

module _ {F : Type 0} (host : HostFile F) where
  -- The sector has the inode, as a ReadLength gives it, and the rest of the file is as before.
  pub record BackWritten (sector : ℕ) (hdr : FileHeader) (d : Disk F) (result : Option (Disk F))
      : Type 0 where
    pub out : Disk F
    pub returns : result ≡ some out
    pub done : out.active ≡ false
    pub inode :
        (clock : ℕ → ℕ)
        → (after : Disk F) × (read_length host clock sector 100 out
            ≡ some (ints_bytes (inode_ints hdr), after))
          × (after.file ≡ out.file)
    pub others :
        (at len : ℕ)
        → (at + len ≤ 128 * sector + 4) ⊎ (128 * sector + 132 ≤ at)
        → host.read out.file at len ≡ host.read d.file at len

  pub write_back-Written :
      (super_block : SuperBlock) (clock : ℕ → ℕ) (hdr : FileHeader) (d : Disk F)
      → d.active ≡ false
      → length hdr.data_fragments ≡ 16
      → first_sector super_block hdr.id < num_sectors
      → BackWritten
          (first_sector super_block hdr.id)
          hdr
          d
          (write_back host super_block clock hdr d)
  unfolding write_back
  write_back-Written super_block clock hdr d idle table on_disk =
      let sector : ℕ = first_sector super_block hdr.id in
      let bytes : List ℕ = ints_bytes (inode_ints hdr) in
      let size : length bytes ≡ 100 =
        omega (arith, length-ints_bytes (inode_ints hdr), length-inode_ints hdr table) in
      let w =
        read_length-write_length host clock sector 100 bytes d idle (omega arith) (omega arith) in
      let all : take 100 bytes ≡ bytes = take_all 100 bytes (omega arith) in
      record {
        out = w.written;
        returns = w.writes;
        done = w.done;
        inode = λ clock'.
            let (after, reads, same) = w.reads clock' in
            (after, reads ∙ ap (λ (xs : List ℕ). some (xs, after)) all, same);
        others = λ at len h.
            w.others at len (elim h [ inl e ↦ inl (omega arith) | inr e ↦ inr (omega arith) ]);
      }

  -- Fragments that the sector is not in hold what they held.
  pub Held-kept :
      (f f' : F) (sector : ℕ) (ps buf : List ℕ)
      → ((at len : ℕ)
          → (at + len ≤ 128 * sector + 4) ⊎ (128 * sector + 132 ≤ at)
          → host.read f' at len ≡ host.read f at len)
      → Outside (128 * sector + 4) 128 ps
      → Held host f ps buf
      → Held host f' ps buf
  Held-kept f f' sector [] buf same apart h = tt
  Held-kept f f' sector (p ∷ ps) buf same (apart, rest) (h, hs) = (
    Holds-kept host f f' 8 0 (p * 8) (take 1024 buf)
        (λ j low high.
          same (offset host (p * 8 + j)) 128
            (elim apart [ inl e ↦ inr (omega arith) | inr e ↦ inl (omega arith) ]))
        h,
    Held-kept f f' sector ps (drop 1024 buf) same rest hs,
  )
