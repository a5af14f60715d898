-- ===== src/Os/Fs/Data.antt =====
-- The contents of files in programs/rv32/os/fs.c: `direct_sectors`, `fs_read` and `fs_write`.
pub mod Place
pub mod Reading
pub mod Saved
pub mod Writing
mod Tests
use tiny_processors.Prelude.{
  ℕ, zero, suc, ◌+◌, ◌-◌, ◌*◌, ◌/◌, ◌%◌, ◌^◌, Bool, true, false, not, ◌&&◌, ◌||◌, List, [], ◌∷◌,
  Option, none, some, leb, ltb, ◌==◌, ◌!=◌, if◌then◌else◌, get_or, set,
}
use tiny_processors.Os.Disk.{Disk, virtio_sector}
use tiny_processors.Os.Fs.{
  Entry, Fs, magic, directory_sector, first_data, entries, fs_name_size, fs_capacity, char_at,
  no_entry,
}

-- A round of the inner loop of `fs_write` or `fs_read` copies one byte; `left` is 512 less `at`. The result is
-- the count of bytes that go.
pub copy_count : ℕ → ℕ → ℕ → ℕ
copy_count zero wanted room = 0
copy_count (suc left) zero room = 0
copy_count (suc left) (suc wanted) zero = 0
copy_count (suc left) (suc wanted) (suc room) = suc (copy_count left wanted room)

-- `n` bytes of `from` put at `at`.
abbrev pub copied : ℕ → ℕ → (ℕ → ℕ) → (ℕ → ℕ) → ℕ → ℕ
copied at n from bytes k = if leb at k && ltb k (at + n) then from (k - at) else bytes k

abbrev pub ram_start : ℕ
ram_start = 0x8000_0000

abbrev pub ram_end : ℕ
ram_end = 0x8100_0000

pub direct_sectors : Entry → ℕ → ℕ → ℕ → ℕ
direct_sectors e position address left =
    if position % virtio_sector != 0
      || address % 4 != 0
      || ltb address ram_start
      || leb ram_end address
    then 0
    else let in_file = (e.size - position) / virtio_sector in
      let wanted = left / virtio_sector in
      let whole = if ltb in_file wanted then in_file else wanted in
      if ltb ((ram_end - address) / virtio_sector) whole then 0 else whole

-- The sector of the disk that byte `position` of the file is in, and the end of its extent in bytes.
pub sector_of : Entry → ℕ → ℕ
sector_of e position = (e.first + position / virtio_sector) % 2 ^ 32

pub limit_of : Entry → ℕ
limit_of e = e.capacity * virtio_sector % 2 ^ 32

-- What `fs_read` and `fs_write` return: FS_ERROR, or a count.
pub data Count : Type 0 where
  fs_error : Count
  count : ℕ → Count

-- What a round of their loops leaves: an error, or `done` and `position` advanced by so much.
pub data Transfer (S : Type 0) : Type 0 where
  failed : S → Transfer S
  moved : ℕ → S → Transfer S

module _ {D : Type 0} (disk : Disk D) where
  -- A read of sectors into memory at `to`: the direct path of `fs_read`.
  pub read_direct : ℕ → ℕ → ℕ → (ℕ → ℕ) × D → Transfer ((ℕ → ℕ) × D)
  read_direct sector whole to (memory, d) =
      let (ok, got, d') = disk.transfer_in sector whole d in
      let memory' = copied to (whole * virtio_sector) got memory in
      if ok then moved (whole * virtio_sector) (memory', d') else failed (memory', d')

  -- A read through the sector buffer.
  pub read_buffered : Entry → ℕ → ℕ → ℕ → (ℕ → ℕ) × D → Transfer ((ℕ → ℕ) × D)
  read_buffered e position to left (memory, d) =
      let at = position % virtio_sector in
      let n = copy_count (virtio_sector - at) left (e.size - position) in
      let (ok, got, d') = disk.transfer_in (sector_of e position) 1 d in
      if ok then moved n (copied to n (λ k. got (at + k)) memory, d') else failed (memory, d')

  pub read_round : Entry → ℕ → ℕ → ℕ → (ℕ → ℕ) × D → Transfer ((ℕ → ℕ) × D)
  unfolding read_direct read_buffered
  read_round e position to left s =
      let whole = direct_sectors e position to left in
      if whole != 0
      then read_direct (sector_of e position) whole to s
      else read_buffered e position to left s

  -- The loop of `fs_read`, on fuel: each round moves a byte or more.
  pub read_loop : ℕ → Entry → ℕ → ℕ → ℕ → ℕ → (ℕ → ℕ) × D → Count × ((ℕ → ℕ) × D)
  read_loop zero e position to length done s = (count done, s)
  read_loop (suc fuel) e position to length done s = elim (ltb done length && ltb position e.size) [
    | false ↦ (count done, s)
    | true ↦ elim (read_round e position (to + done) (length - done) s) [
      | failed s' ↦ (fs_error, s')
      | moved n s' ↦ read_loop fuel e (position + n) to length (done + n) s'
    ]
  ]

  pub fs_read : ℕ → ℕ → ℕ → ℕ → (ℕ → ℕ) → Fs D → Count × (ℕ → ℕ) × Fs D
  fs_read file position to length memory fs =
      let (result, (memory', d)) =
        read_loop length (get_or fs.directory file no_entry) position to length 0
          (memory, fs.driver) in
      (result, memory', record fs { driver = d })

  -- The sector that was read, changed and written back.
  pub store_sector : ℕ → ℕ → ℕ → (ℕ → ℕ) → (ℕ → ℕ) → D → Transfer D
  store_sector sector at n from got d =
      let (stored, d') = disk.transfer_out sector (copied at n from got) d in
      if stored then moved n d' else failed d'

  -- A round of `fs_write`.
  pub write_round : Entry → ℕ → (ℕ → ℕ) → ℕ → D → Transfer D
  write_round e position from left d =
      let at = position % virtio_sector in
      let n = copy_count (virtio_sector - at) left (limit_of e - position) in
      let (ok, got, d') = disk.transfer_in (sector_of e position) 1 d in
      if ok then store_sector (sector_of e position) at n from got d' else failed d'

  -- The loop of `fs_write`, on fuel. The result has the size of the file.
  pub write_loop : ℕ → Entry → ℕ → (ℕ → ℕ) → ℕ → ℕ → ℕ × D → Count × (ℕ × D)
  write_loop zero e position from length done s = (count done, s)
  write_loop (suc fuel) e position from length done (size, d) =
      elim (ltb done length && ltb position (limit_of e)) [
        | false ↦ (count done, (size, d))
        | true ↦ elim (write_round e position (λ k. from (done + k)) (length - done) d) [
          | failed d' ↦ (fs_error, (size, d'))
          | moved n d' ↦
              write_loop fuel e (position + n) from length (done + n)
                (if ltb size (position + n) then position + n else size, d')
        ]
      ]

  pub fs_write : ℕ → ℕ → (ℕ → ℕ) → ℕ → Fs D → Count × Fs D
  fs_write file position from length fs =
      let e = get_or fs.directory file no_entry in
      let (result, (size, d)) = write_loop length e position from length 0 (e.size, fs.driver) in
      (
        result,
        record fs { directory = set fs.directory file (record e { size = size }); driver = d },
      )
