-- ===== src/Disk.antt =====
-- machine/disk.cc and filesys/synchdisk.cc: a disk of sectors behind one request at a time. The UNIX file is
-- the host's: it is any type with a read and a write at an offset (HostFile). The times at which requests
-- are made are parameters; `none` is a failed ASSERT.
pub mod Latency
pub mod Sectors
pub mod FunctionFile
mod Examples
use everything.Base.{
  ℕ, zero, suc, ◌+◌, ◌-◌, ◌*◌, ◌/◌, ◌%◌, ◌≤◌, ◌≡◌, ◌⊎◌, Bool, true, false, not, Option, none, some,
  List, [], ◌∷◌, ◌++◌, length, ltb, leb, ◌==◌, ◌&&◌, if◌then◌else◌, drop, take, assert, ◌>>=◌, ◌>>◌,
}
use everything.Bitmap.{div_round_up}
use everything.FileSystem.Layout.{sector_size, sectors_per_track, num_sectors}

-- The file of the host, and what a read gives after a write: the bytes written where they were written,
-- and the bytes from before elsewhere.
pub record HostFile (F : Type 0) : Type 0 where
  pub read : F → ℕ → ℕ → List ℕ
  pub write : F → ℕ → List ℕ → F
  pub read-write : (f : F) (at : ℕ) (xs : List ℕ) → read (write f at xs) at (length xs) ≡ xs
  pub read-write_other :
      (f : F) (at : ℕ) (xs : List ℕ) (at' len' : ℕ)
      → (at' + len' ≤ at) ⊎ (at + length xs ≤ at')
      → read (write f at xs) at' len' ≡ read f at' len'

abbrev pub magic_size : ℕ
magic_size = 4

-- machine/stats.h
abbrev pub rotation_time : ℕ
rotation_time = 500

abbrev pub seek_time : ℕ
seek_time = 500

pub record Disk (F : Type 0) : Type 0 where
  pub file : F
  pub last_sector : ℕ
  pub buffer_init : ℕ
  pub active : Bool

-- abs(a - b)
pub distance : ℕ → ℕ → ℕ
distance a b = (a - b) + (b - a)

-- Disk::TimeToSeek from `last_sector` at time `now`: the seek and `*rotation`.
pub time_to_seek : ℕ → ℕ → ℕ → ℕ × ℕ
unfolding distance
time_to_seek now last_sector new_sector =
    let seek : ℕ =
      distance (new_sector / sectors_per_track) (last_sector / sectors_per_track) * seek_time in
    let over : ℕ = (now + seek) % rotation_time in
    (seek, (if ltb 0 over then rotation_time - over else 0))

-- Disk::ModuloDiff
pub modulo_diff : ℕ → ℕ → ℕ
modulo_diff to from =
    (to % sectors_per_track + sectors_per_track - from % sectors_per_track) % sectors_per_track

-- Disk::ComputeLatency. A difference that the code has below 0 passes no test, as 0 does.
pub compute_latency : ℕ → ℕ → ℕ → ℕ → Bool → ℕ
unfolding time_to_seek modulo_diff
compute_latency now last_sector buffer_init new_sector writing =
    let (seek, rotation) = time_to_seek now last_sector new_sector in
    let time_after : ℕ = now + seek + rotation in
    let buffered : Bool =
      ltb (modulo_diff new_sector (buffer_init / rotation_time))
        ((time_after - buffer_init) / rotation_time) in
    if not writing && seek == 0 && buffered
    then rotation_time
    else (seek
        + (rotation + modulo_diff new_sector (time_after / rotation_time) * rotation_time)
        + rotation_time)

-- A buffer of `size` zeros that the bytes were copied into.
unfoldable pub padded : ℕ → List ℕ → List ℕ
padded zero xs = []
padded (suc size) [] = 0 ∷ padded size []
padded (suc size) (x ∷ xs) = x ∷ padded size xs

module _ {F : Type 0} where
  -- Disk::UpdateLast
  pub update_last : ℕ → ℕ → Disk F → Disk F
  unfolding time_to_seek
  update_last now new_sector d =
      let (seek, rotate) = time_to_seek now d.last_sector new_sector in
      record d {
        buffer_init = if seek == 0 then d.buffer_init else now + seek + rotate;
        last_sector = new_sector;
      }

  -- Disk::CallBack, without the semaphore.
  pub call_back : Disk F → Disk F
  call_back d = record d { active = false }

module _ {F : Type 0} (host : HostFile F) where
  -- Disk::ReadRequest; the result is the data and the delay that Schedule is given.
  pub read_request : ℕ → ℕ → Disk F → Option (List ℕ × ℕ × Disk F)
  unfolding compute_latency update_last
  read_request now sector_number d =
      let ticks : ℕ = compute_latency now d.last_sector d.buffer_init sector_number false in
      do
        assert (not d.active)
        assert (ltb sector_number num_sectors)
        let bytes = host.read d.file (sector_size * sector_number + magic_size) sector_size
        some (bytes, ticks, update_last now sector_number (record d { active = true }))

  -- Disk::WriteRequest
  pub write_request : ℕ → ℕ → List ℕ → Disk F → Option (ℕ × Disk F)
  unfolding compute_latency update_last
  write_request now sector_number bytes d =
      let ticks : ℕ = compute_latency now d.last_sector d.buffer_init sector_number true in
      do
        assert (not d.active)
        assert (ltb sector_number num_sectors)
        let file' = host.write d.file (sector_size * sector_number + magic_size) bytes
        some (ticks, update_last now sector_number (record d { file = file'; active = true }))

  -- SynchDisk::ReadSector: the lock lets no other request in, and P returns after the CallBack.
  pub read_sector : ℕ → ℕ → Disk F → Option (List ℕ × Disk F)
  unfolding read_request call_back
  read_sector now sector_number d = do
    (bytes, ticks, d') ← read_request now sector_number d
    some (bytes, call_back d')

  -- SynchDisk::WriteSector
  pub write_sector : ℕ → ℕ → List ℕ → Disk F → Option (Disk F)
  unfolding write_request call_back
  write_sector now sector_number bytes d = do
    (ticks, d') ← write_request now sector_number bytes d
    some (call_back d')

  -- SynchDisk::ReadFragment and ReadBlock, with the sectors left: every request is made at once and
  -- into the same buffer, and only then is the interrupt awaited.
  pub read_requests : ℕ → ℕ → ℕ → List ℕ → Disk F → Option (List ℕ × Disk F)
  unfolding read_request
  read_requests now zero sector_number bytes d = some (bytes, d)
  read_requests now (suc left) sector_number bytes d = do
    (bytes', ticks, d') ← read_request now sector_number d
    read_requests now left (sector_number + 1) bytes' d'

  -- SynchDisk::WriteFragment and WriteBlock, likewise.
  pub write_requests : ℕ → ℕ → ℕ → List ℕ → Disk F → Option (Disk F)
  unfolding write_request
  write_requests now zero sector_number bytes d = some d
  write_requests now (suc left) sector_number bytes d = do
    (ticks, d') ← write_request now sector_number bytes d
    write_requests now left (sector_number + 1) bytes d'

  -- The loop of ReadLength over the sectors; request number `i` is made at time `clock i`.
  pub read_sectors : (ℕ → ℕ) → ℕ → ℕ → ℕ → Disk F → Option (List ℕ × Disk F)
  unfolding read_sector
  read_sectors clock zero i sector_number d = some ([], d)
  read_sectors clock (suc left) i sector_number d = do
    (bytes, d') ← read_sector (clock i) (sector_number + i) d
    (rest, d'') ← read_sectors clock left (i + 1) sector_number d'
    some (bytes ++ rest, d'')

  -- The loop of WriteLength; sector number `i` gets the next bytes of the buffer.
  pub write_sectors : (ℕ → ℕ) → ℕ → ℕ → ℕ → List ℕ → Disk F → Option (Disk F)
  unfolding write_sector
  write_sectors clock zero i sector_number buf d = some d
  write_sectors clock (suc left) i sector_number buf d = do
    d' ← write_sector (clock i) (sector_number + i) (take sector_size buf) d
    write_sectors clock left (i + 1) sector_number (drop sector_size buf) d'

  -- SynchDisk::ReadLength
  pub read_length : (ℕ → ℕ) → ℕ → ℕ → Disk F → Option (List ℕ × Disk F)
  unfolding read_sectors
  read_length clock sector_number len d = do
    (buf, d') ← read_sectors clock (div_round_up len sector_size) 0 sector_number d
    some (take len buf, d')

  -- SynchDisk::WriteLength, with `bytes` of `len` bytes or more.
  pub write_length : (ℕ → ℕ) → ℕ → ℕ → List ℕ → Disk F → Option (Disk F)
  unfolding write_sectors padded
  write_length clock sector_number len bytes d =
      let num_sectors : ℕ = div_round_up len sector_size in
      write_sectors clock num_sectors 0 sector_number
        (padded (num_sectors * sector_size) (take len bytes)) d
