-- ===== src/Os/Fs/Directory/Tests.antt =====
-- The creation of a file on a disk whose transfers all fail.
use tiny_processors.Prelude.{ℕ, zero, suc, ◌≡◌, ◌≢◌, refl, arith, true, false, [], ◌∷◌, get_or}
use tiny_processors.Os.Disk.{Disk}
use tiny_processors.Os.Fs.{Entry, Fs, no_entry}
use tiny_processors.Os.Fs.Directory.{in_use, fs_open}
use tiny_processors.Os.Fs.Directory.Scanning.{IsBounded, Apart, IsSound}
use tiny_processors.Os.Fs.Directory.Opening.{Opened, fs_open-Opened}

abbrev broken_disk : Disk (Unit {0})
broken_disk = record {
  transfer_in = λ sector count d. (false, λ k. 0, d);
  transfer_out = λ sector put d. (false, d);
}

abbrev notes : Entry
notes = record { name = 110 ∷ []; first = 3; capacity = 8; size = 600; corrupt = false }

-- A file and a free slot.
abbrev fs : Fs (Unit {0})
fs = record { directory = notes ∷ no_entry ∷ []; sectors = 64; mounted = true; driver = tt }

unused : (i : ℕ) → in_use (get_or fs.directory (suc i) no_entry) ≡ true → ⊥
unfolding in_use
unused zero h = cc
unused (suc i) h = cc

fs-IsSound : IsSound fs
fs-IsSound = record { bounded = bounded; apart = apart }
  where
    bounded :
        (i : ℕ)
        → in_use (get_or fs.directory i no_entry) ≡ true
        → IsBounded 64 (get_or fs.directory i no_entry)
    bounded zero used = record { behind = omega arith; within = omega arith; sized = omega arith }
    bounded (suc i) used = absurd (unused i used)

    apart :
        (i j : ℕ)
        → i ≢ j
        → in_use (get_or fs.directory i no_entry) ≡ true
        → in_use (get_or fs.directory j no_entry) ≡ true
        → Apart (get_or fs.directory i no_entry) (get_or fs.directory j no_entry)
    apart zero zero differ u v = absurd (differ refl)
    apart zero (suc j) differ u v = absurd (unused j v)
    apart (suc i) j differ u v = absurd (unused i u)

fs_open-Opened_example :
    Opened fs fs-IsSound broken_disk (omega arith) (fs_open broken_disk (97 ∷ []) true fs)
fs_open-Opened_example = fs_open-Opened fs fs-IsSound broken_disk (omega arith) (97 ∷ []) true
