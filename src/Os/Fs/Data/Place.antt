-- ===== src/Os/Fs/Data/Place.antt =====
-- Where the bytes of a file lie on the disk.
use tiny_processors.Prelude.{
  ℕ, zero, suc, ◌+◌, ◌-◌, ◌*◌, ◌/◌, ◌%◌, ◌^◌, ◌≤◌, ◌<◌, ◌≡◌, min, max, arith, Bool, ◌&&◌, leb, ltb,
  ◌!=◌, true, if◌then◌else◌,
}
use tiny_processors.Os.Disk.{virtio_sector}
use tiny_processors.Os.Fs.{Entry, first_data}
use tiny_processors.Os.Fs.Data.{sector_of, limit_of, copy_count, direct_sectors}

pub copy_count_lem :
    (left wanted room : ℕ) → copy_count left wanted room ≡ min left (min wanted room)
unfolding copy_count
copy_count_lem zero wanted room = omega arith
copy_count_lem (suc left) zero room = omega arith
copy_count_lem (suc left) (suc wanted) zero = omega arith
copy_count_lem (suc left) (suc wanted) (suc room) = omega (arith, copy_count_lem left wanted room)

-- An entry whose extent lies on a disk of at most 2 ^ 23 sectors, behind the directory.
pub record IsPlaced (e : Entry) : Type 0 where
  pub behind : first_data ≤ e.first
  pub within : e.first + e.capacity ≤ 2 ^ 23

-- The byte of the disk that byte `position` of the file is.
abbrev pub place : Entry → ℕ → ℕ
place e position = virtio_sector * e.first + position

abbrev pub limit : Entry → ℕ
limit e = e.capacity * virtio_sector

pub limit_of_lem : (e : Entry) → IsPlaced e → limit_of e ≡ limit e
unfolding limit_of
limit_of_lem e placed = omega (arith, placed.within, placed.behind)

-- How many bytes a round moves, and it is one or more.
abbrev pub step_count : ℕ → ℕ → ℕ → ℕ
step_count position left room = min (virtio_sector - position % virtio_sector) (min left room)

pub sector_of_lem :
    (e : Entry)
    → IsPlaced e
    → (position : ℕ) → position < limit e
    → sector_of e position ≡ e.first + position / virtio_sector
unfolding sector_of
sector_of_lem e placed position inside = omega (arith, placed.within, placed.behind)

-- The count of bytes that a call writes, and the size of the file after it.
abbrev pub written : Entry → ℕ → ℕ → ℕ
written e position left = min left (limit e - position)

abbrev pub grown : Entry → ℕ → ℕ → ℕ → ℕ
grown e position left size =
    if ltb 0 (written e position left) then max size (position + written e position left) else size

-- Byte `at` of the disk lies in the extent of the file.
abbrev pub in_extent : Entry → ℕ → Bool
in_extent e at = leb (place e 0) at && ltb at (place e (limit e))

-- The count of bytes that a call reads.
abbrev pub available : Entry → ℕ → ℕ → ℕ
available e position left = min left (e.size - position)

-- A direct read starts at a sector of the file, and stays within its bytes.
pub direct_sectors-le :
    (e : Entry) (position to left : ℕ)
    → (direct_sectors e position to left != 0) ≡ true
    → (position % virtio_sector ≡ 0)
      × (direct_sectors e position to left * virtio_sector ≤ min left (e.size - position))
unfolding direct_sectors
direct_sectors-le e position to left some_whole = (ground arith, ground arith)
