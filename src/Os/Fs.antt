-- ===== src/Os/Fs.antt =====
-- The kernel's file system, programs/rv32/os/fs.c: its state. A directory entry has its flag of `corrupt` as a field,
-- and a C string is the list of its bytes, which reads as NUL past its end. The sector buffer is read into before
-- each use, so it is a value and no part of the state. A transfer that fails leaves its buffer as it was.
pub mod Directory
pub mod Data
use tiny_processors.Prelude.{
  ℕ, zero, suc, ◌+◌, ◌-◌, ◌*◌, ◌/◌, ◌%◌, ◌^◌, Bool, true, false, not, ◌&&◌, ◌||◌, List, [], ◌∷◌,
  Option, none, some, leb, ltb, ◌==◌, ◌!=◌, if◌then◌else◌, get_or, set,
}
use tiny_processors.Os.Disk.{Disk, virtio_sector}

abbrev pub magic : ℕ
magic = 0x3153_4654

abbrev pub directory_sector : ℕ
directory_sector = 1

abbrev pub first_data : ℕ
first_data = 2

abbrev pub entries : ℕ
entries = 16

abbrev pub fs_name_size : ℕ
fs_name_size = 20

abbrev pub fs_capacity : ℕ
fs_capacity = 8

pub record Entry : Type 0 where
  pub name : List ℕ
  pub first : ℕ
  pub capacity : ℕ
  pub size : ℕ
  pub corrupt : Bool

-- The statics of the file system, and the driver's state.
pub record Fs (D : Type 0) : Type 0 where
  pub directory : List Entry
  pub sectors : ℕ
  pub mounted : Bool
  pub driver : D

abbrev pub char_at : List ℕ → ℕ → ℕ
char_at s i = get_or s i 0

abbrev pub no_entry : Entry
no_entry = record { name = []; first = 0; capacity = 0; size = 0; corrupt = false }
