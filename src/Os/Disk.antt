-- ===== src/Os/Disk.antt =====
-- What the file system asks of the disk driver: `virtio_transfer` of programs/rv32/os/virtio.c, as an interface.
use tiny_processors.Prelude.{ℕ, ◌+◌, ◌*◌, ◌<◌, ◌≤◌, ◌≡◌, Bool, true, ◌&&◌, leb, ltb}

abbrev pub virtio_sector : ℕ
virtio_sector = 512

-- `transfer_in sector count` says whether it succeeded, with what the buffer holds then; `transfer_out sector` writes
-- one sector. Both leave the driver and its device in a new state.
pub record Disk (D : Type 0) : Type 0 where
  pub transfer_in : ℕ → ℕ → D → Bool × (ℕ → ℕ) × D
  pub transfer_out : ℕ → (ℕ → ℕ) → D → Bool × D

-- Whether byte `at` of the disk is in the sector.
abbrev pub in_sector : ℕ → ℕ → Bool
in_sector sector at =
    leb (virtio_sector * sector) at && ltb at (virtio_sector * sector + virtio_sector)

-- The contract: a read that succeeds gives the bytes of the disk, no read changes them, a write that succeeds
-- stores its sector, and no write changes another.
pub record IsDisk {D : Type 0} (disk : Disk D) (bytes : D → ℕ → ℕ) : Type 0 where
  pub reads :
      (sector count : ℕ) (d : D)
      → (disk.transfer_in sector count d).0 ≡ true
      → (k : ℕ) → k < virtio_sector * count
      → (disk.transfer_in sector count d).1 k ≡ bytes d (virtio_sector * sector + k)
  pub read_keeps :
      (sector count : ℕ) (d : D) (at : ℕ)
      → bytes (disk.transfer_in sector count d).2 at ≡ bytes d at
  pub writes :
      (sector : ℕ) (put : ℕ → ℕ) (d : D)
      → (disk.transfer_out sector put d).0 ≡ true
      → (k : ℕ) → k < virtio_sector
      → bytes (disk.transfer_out sector put d).1 (virtio_sector * sector + k) ≡ put k
  pub write_keeps :
      (sector : ℕ) (put : ℕ → ℕ) (d : D) (at : ℕ)
      → in_sector sector at ≡ Bool.false
      → bytes (disk.transfer_out sector put d).1 at ≡ bytes d at

-- A disk that serves an extent of `capacity` sectors from `first`: as long as its driver is sound, a transfer that
-- stays within the extent succeeds, and leaves the driver sound.
pub record IsReliable {D : Type 0} (disk : Disk D) (sound : D → Type 0) (first capacity : ℕ)
    : Type 0 where
  pub loads :
      (sector count : ℕ) (d : D)
      → sound d
      → 0 < count
      → first ≤ sector
      → sector + count ≤ first + capacity
      → ((disk.transfer_in sector count d).0 ≡ true) × sound (disk.transfer_in sector count d).2
  pub stores :
      (sector : ℕ) (put : ℕ → ℕ) (d : D)
      → sound d
      → first ≤ sector
      → sector < first + capacity
      → ((disk.transfer_out sector put d).0 ≡ true) × sound (disk.transfer_out sector put d).1
