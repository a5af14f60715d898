-- ===== src/Os/Kernel/Safety/Opening.antt =====
-- A file that is opened keeps the promise: `may_open` refuses what would share a file that is written.
use tiny_processors.Prelude.{
  ℕ, zero, suc, ◌%◌, ◌≡◌, ◌≢◌, refl, sym, ◌∙◌, ◌⊎◌, inl, inr, arith, true, false, not, ◌&&◌, ◌||◌,
  List, [], ◌∷◌, Option, ◌==◌, ltb, leb, Bool-cases, Option-cases, get_or, set, length, get_or-set,
}
use tiny_processors.Prelude.Bits.{has}
use tiny_processors.Os.Disk.{Disk}
use tiny_processors.Os.Fs.{Fs}
use tiny_processors.Os.Fs.Directory.{fs_open}
use tiny_processors.Os.Kernel.{
  Kernel, Proc, OpenFile, no_proc, no_file, proc_at, space_at, o_write, o_read, o_create,
}
use tiny_processors.Os.Kernel.Memory.{string_loop}
use tiny_processors.Os.Kernel.Files.{conflicts, any_conflict, may_open}
use tiny_processors.Os.Kernel.Calls.Filing.{with_file, free_file, install, open_call}
use tiny_processors.Os.Kernel.Safety.{Shared, IsSafe, file_at, is_open}
use tiny_processors.Os.Kernel.Safety.Returns.{OnReturn}
use tiny_processors.Os.Kernel.Safety.Placing.{IsSafe-set}

-- Neither the file that is opened nor the one that is open is written.
abbrev Unwritten : ℕ → OpenFile → Type 0
Unwritten mode o = (mode ≢ o_write) × (o.mode ≢ o_write)

any_conflict-clear :
    (file mode : ℕ) (files : List OpenFile) (g : ℕ)
    → any_conflict file mode files ≡ false
    → (get_or files g no_file).mode ≢ 0
    → (get_or files g no_file).file ≡ file
    → Unwritten mode (get_or files g no_file)
unfolding any_conflict conflicts
any_conflict-clear file mode [] g clear opened same = absurd (opened refl)
any_conflict-clear file mode (o ∷ rest) zero clear opened same =
    (λ h. ground arith, λ h. ground arith)
any_conflict-clear file mode (o ∷ rest) (suc g) clear opened same =
    any_conflict-clear file mode rest g (ground arith) opened same

-- What `may_open` tells of every file that is open.
pub may_open-clear :
    (file mode : ℕ) (procs : List Proc) (j g : ℕ)
    → may_open file mode procs ≡ true
    → is_open (get_or procs j no_proc) g ≡ true
    → (file_at (get_or procs j no_proc) g).file ≡ file
    → Unwritten mode (file_at (get_or procs j no_proc) g)
unfolding may_open
may_open-clear file mode [] j g may opened same = cc
may_open-clear file mode (p ∷ rest) zero g may opened same =
    any_conflict-clear file mode p.files g (ground arith) (λ h. ground arith) same
may_open-clear file mode (p ∷ rest) (suc j) g may opened same =
    may_open-clear file mode rest j g (ground arith) opened same

-- A descriptor after another, or the same, has been set.
set-cases :
    (files : List OpenFile) (f g : ℕ) (o : OpenFile)
    → ((g ≡ f) × (get_or (set files f o) g no_file ≡ o))
      ⊎ (get_or (set files f o) g no_file ≡ get_or files g no_file)
set-cases files f g o = elim (Bool-cases (f == g && ltb f (length files))) [
  | inl here ↦ inl (ground arith, get_or-set files f g o no_file ∙ ground arith)
  | inr away ↦ inr (get_or-set files f g o no_file ∙ ground arith)
]

opened-IsSafe :
    (procs : List Proc) (i f mode file : ℕ)
    → IsSafe procs
    → may_open file mode procs ≡ true
    → IsSafe (
        set procs i (
          with_file f (record { mode = mode; file = file; position = 0 }) (get_or procs i no_proc)))
opened-IsSafe procs i f mode file safe may =
    IsSafe-set procs i p safe (λ j away lives. safe.slots i j (λ e. away (sym e)) lives) others own
  where
    o : OpenFile
    o = record { mode = mode; file = file; position = 0 }

    p : Proc
    p = with_file f o (get_or procs i no_proc)

    others :
        (j g h : ℕ)
        → j ≢ i
        → is_open p g ≡ true
        → is_open (get_or procs j no_proc) h ≡ true
        → Shared (file_at p g) (file_at (get_or procs j no_proc) h)
    others j g h away opened = elim (set-cases (get_or procs i no_proc).files f g o) [
      | inl new ↦
          rw new.1 (λ opened' same. may_open-clear file mode procs j h may opened' (sym same))
      | inr old ↦ rw old (safe.files i j g h (inl (λ e. away (sym e))) (rw old at opened))
    ]

    own :
        (g h : ℕ)
        → g ≢ h
        → is_open p g ≡ true
        → is_open p h ≡ true
        → Shared (file_at p g) (file_at p h)
    own g h differ opened opened' = elim (set-cases (get_or procs i no_proc).files f g o) [
      | inl new ↦ elim (set-cases (get_or procs i no_proc).files f h o) [
        | inl new' ↦ absurd (differ (new.0 ∙ sym new'.0))
        | inr old' ↦
            rw (new.1, old')
              (λ same. may_open-clear file mode procs i h may (rw old' at opened') (sym same))
      ]
      | inr old ↦ elim (set-cases (get_or procs i no_proc).files f h o) [
        | inl new' ↦
            rw (old, new'.1)
              (λ same.
                let u : Unwritten mode (file_at (get_or procs i no_proc) g) =
                  may_open-clear file mode procs i g may (rw old at opened) same in
                (u.1, u.0))
        | inr old' ↦
            rw (old, old') (safe.files i i g h (inr differ) (rw old at opened) (rw old' at opened'))
      ]
    ]

module _ {B D : Type 0} (disk : Disk D) where
  install-IsSafe :
      (i f mode file : ℕ) (k : Kernel B D)
      → IsSafe k.procs
      → OnReturn (λ answer k'. IsSafe k'.procs) (install disk i f mode file k)
  unfolding install
  install-IsSafe i f mode file k safe = elim (Bool-cases (may_open file mode k.procs)) [
    | inl may ↦ rw (may, OnReturn, install) (opened-IsSafe k.procs i f mode file safe may)
    | inr may_not ↦ rw (may_not, OnReturn, install) safe
  ]

  pub open_call-IsSafe :
      (i a0 a1 : ℕ) (k : Kernel B D)
      → IsSafe k.procs
      → OnReturn (λ answer k'. IsSafe k'.procs) (open_call disk i a0 a1 k)
  unfolding open_call
  open_call-IsSafe i a0 a1 k safe =
      elim (Bool-cases (not (mode == o_read || mode == o_write) || leb 8 a1)) [
        | inl bad ↦ rw (bad, OnReturn, open_call) safe
        | inr good ↦
            elim (Option-cases (string_loop 20 p.base p.span (space_at k i).guard k.memory a0)) [
              | inl unread ↦ rw (good, unread, OnReturn, open_call) safe
              | inr name ↦ elim (Option-cases (free_file p.files 0)) [
                | inl full ↦ rw (good, name.1, full, OnReturn, open_call) safe
                | inr f ↦ elim (Option-cases (found name.0).0) [
                  | inl missing ↦ rw (good, name.1, f.1, missing, OnReturn, open_call) safe
                  | inr file ↦
                      rw (good, name.1, f.1, file.1, open_call)
                        (install-IsSafe i f.0 mode file.0 (record k { fs = (found name.0).1 }) safe)
                ]
              ]
            ]
      ]
    where
      p : Proc
      p = proc_at k i

      mode : ℕ
      mode = a1 % 4

      found : List ℕ → Option ℕ × Fs D
      found name = fs_open disk name (has a1 o_create && mode == o_write) k.fs
