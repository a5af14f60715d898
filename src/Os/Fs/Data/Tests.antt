-- ===== src/Os/Fs/Data/Tests.antt =====
-- The file system's reads and writes on a disk of 16 sectors.
use tiny_processors.Prelude.{
  ℕ, ◌+◌, ◌-◌, ◌*◌, ◌≡◌, refl, inl, inr, arith, Bool, true, false, Bool-cases, leb, ◌&&◌, [], ◌∷◌,
  if◌then◌else◌,
}
use tiny_processors.Os.Disk.{Disk, IsDisk, IsReliable, virtio_sector, in_sector}
use tiny_processors.Os.Fs.{Entry, Fs}
use tiny_processors.Os.Fs.Data.{fs_read, fs_write}
use tiny_processors.Os.Fs.Data.Place.{IsPlaced}
use tiny_processors.Os.Fs.Data.Reading.{ReadResult, fs_read-Reads}
use tiny_processors.Os.Fs.Data.Writing.{WriteResult, fs_write-Writes}
use tiny_processors.Os.Fs.Data.Saved.{Saves, fs_read-write}

-- A driver that has its device until it gives it up, and a disk of 16 sectors.
record Drive : Type 0 where
  ready : Bool
  content : ℕ → ℕ

-- A transfer past the end of the disk, or without the device, is refused.
abbrev serves : ℕ → ℕ → Drive → Bool
serves sector whole d = d.ready && leb (sector + whole) 16

abbrev put_sector : ℕ → (ℕ → ℕ) → (ℕ → ℕ) → ℕ → ℕ
put_sector sector put old at =
    if in_sector sector at then put (at - virtio_sector * sector) else old at

abbrev small_disk : Disk Drive
small_disk = record {
  transfer_in =
      λ sector whole d. (serves sector whole d, λ k. d.content (virtio_sector * sector + k), d);
  transfer_out = λ sector put d. (
    serves sector 1 d,
    if serves sector 1 d then record d { content = put_sector sector put d.content } else d,
  );
}

abbrev drive_bytes : Drive → ℕ → ℕ
drive_bytes d = d.content

small_disk-IsDisk : IsDisk small_disk drive_bytes
small_disk-IsDisk = record {
  reads = λ sector whole d done k inside. refl;
  read_keeps = λ sector whole d at. refl;
  writes = λ sector put d done k inside.
      let here : in_sector sector (virtio_sector * sector + k) ≡ true = ground arith in
      let back : virtio_sector * sector + k - virtio_sector * sector ≡ k = omega arith in
      rw (done, here, back) refl;
  write_keeps = λ sector put d at outside. elim (Bool-cases (serves sector 1 d)) [
    | inl served ↦ rw (served, outside) refl
    | inr refused ↦ rw refused refl
  ];
}

abbrev IsReady : Drive → Type 0
IsReady d = d.ready ≡ true

-- It serves an extent of 8 sectors from sector 3.
small_disk-IsReliable : IsReliable small_disk IsReady 3 8
small_disk-IsReliable = record {
  loads = λ sector whole d ready some above within.
      let inside : leb (sector + whole) 16 ≡ true = ground arith in
      (rw (ready, inside) refl, ready);
  stores = λ sector put d ready above below.
      let served : serves sector 1 d ≡ true = ground arith in (served, rw served ready);
}

-- A file of 600 bytes in sectors 3 to 10, behind one of a sector.
abbrev notes : Entry
notes = record { name = 110 ∷ []; first = 3; capacity = 8; size = 600; corrupt = false }

abbrev fs : Fs Drive
fs = record {
  directory =
      record { name = 97 ∷ []; first = 2; capacity = 1; size = 5; corrupt = false } ∷ notes ∷ [];
  sectors = 16;
  mounted = true;
  driver = record { ready = true; content = λ at. 0 };
}

notes-IsPlaced : IsPlaced notes
notes-IsPlaced = record { behind = omega arith; within = omega arith }

-- Twenty bytes across the end of the file's first sector.
fs_write-Writes_example :
    WriteResult small_disk small_disk-IsDisk 1 500
      (λ k. k)
      20
      notes
      fs
      (fs_write small_disk 1 500 (λ k. k) 20 fs)
fs_write-Writes_example =
    fs_write-Writes small_disk small_disk-IsDisk 1 500 20 (λ k. k) fs notes-IsPlaced

-- The last hundred bytes of the file, where two hundred are asked for.
fs_read-Reads_example :
    ReadResult small_disk small_disk-IsDisk 500 0x1000 200
      (λ at. 7)
      notes
      fs
      (fs_read small_disk 1 500 0x1000 200 (λ at. 7) fs)
fs_read-Reads_example =
    fs_read-Reads small_disk small_disk-IsDisk 1 500 0x1000 200 (λ at. 7) fs notes-IsPlaced
      (omega arith)

fs_read-write_example :
    Saves small_disk small_disk-IsDisk 1 500 20 0x1000
      (λ k. k)
      (λ at. 7)
      notes
      (fs_write small_disk 1 500 (λ k. k) 20 fs)
fs_read-write_example =
    fs_read-write small_disk small_disk-IsDisk {sound = IsReady} 1 500 20 0x1000 (λ k. k) (λ at. 7)
      fs notes-IsPlaced (omega arith) small_disk-IsReliable refl
