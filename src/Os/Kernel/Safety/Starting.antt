-- ===== src/Os/Kernel/Safety/Starting.antt =====
-- The start of a process: its slots are apart from those of the live processes, and it has no file open.
use tiny_processors.Prelude.{
  ℕ, zero, suc, ◌+◌, ◌≤◌, ◌≡◌, refl, ◌⊎◌, inl, inr, arith, true, false, ◌&&◌, List, [], ◌∷◌, Option,
  none, some, ltb, if◌then◌else◌, Bool-cases, Option-cases, get_or, set,
}
use tiny_processors.Os.Kernel.{
  Proc, no_proc, is_free, alive, Kernel, Config, Program, Outcome, returns, o_read,
}
use tiny_processors.Os.Kernel.Process.{
  find_slot, new_proc, start, load_image, find_program, disk_program, read_program, spawn,
  program_named,
}
use tiny_processors.Os.Disk.{Disk}
use tiny_processors.Os.Fs.{Fs}
use tiny_processors.Os.Fs.Directory.{fs_open}
use tiny_processors.Os.Kernel.Files.{may_open}
use tiny_processors.Os.Kernel.Paging.{map_process}
use tiny_processors.Os.Kernel.Safety.Mapping.{map_process-Keeps}
use tiny_processors.Os.Kernel.Safety.Returns.{OnReturn, OnReturn-bind}
use tiny_processors.Os.Kernel.Safety.{IsSafe, is_open}
use tiny_processors.Os.Kernel.Safety.Placing.{IsSafe-set}

-- What `find_slot` finds: a free entry, where the slots are apart from those of every live process.
find_slot-clear :
    (load span : ℕ) (procs : List Proc) (i : ℕ) (chosen : Option ℕ) (m j : ℕ)
    → find_slot load span procs i chosen ≡ some m
    → alive (get_or procs j no_proc) ≡ true
    → (load + span ≤ (get_or procs j no_proc).base)
      ⊎ ((get_or procs j no_proc).base + (get_or procs j no_proc).span ≤ load)
unfolding find_slot
find_slot-clear load span [] i chosen m j found lives = cc
find_slot-clear load span (q ∷ rest) i chosen m j found lives =
    elim (Bool-cases (alive q && ltb q.base (load + span) && ltb load (q.base + q.span))) [
      | inl meets ↦ let bad : none ≡ some m = rw (meets, find_slot) at found in cc
      | inr clear ↦
          by_index
            (λ j. find_slot-clear load span rest (i + 1) next m j (rw (clear, find_slot) at found))
            clear j lives
    ]
  where
    next : Option ℕ
    next = elim chosen [ some j ↦ some j | none ↦ if is_free q.state then some i else none ]

    by_index :
        ((j : ℕ)
          → alive (get_or rest j no_proc) ≡ true
          → (load + span ≤ (get_or rest j no_proc).base)
            ⊎ ((get_or rest j no_proc).base + (get_or rest j no_proc).span ≤ load))
        → (alive q && ltb q.base (load + span) && ltb load (q.base + q.span)) ≡ false
        → (j : ℕ) → alive (get_or (q ∷ rest) j no_proc) ≡ true
        → (load + span ≤ (get_or (q ∷ rest) j no_proc).base)
          ⊎ ((get_or (q ∷ rest) j no_proc).base + (get_or (q ∷ rest) j no_proc).span ≤ load)
    by_index onward clear zero lives = ground arith
    by_index onward clear (suc j) lives = onward j lives

new_proc-closed :
    (program : Program) (pid parent f : ℕ) → is_open (new_proc program pid parent) f ≡ true → ⊥
unfolding new_proc
new_proc-closed program pid parent zero h = cc
new_proc-closed program pid parent (suc zero) h = cc
new_proc-closed program pid parent (suc (suc zero)) h = cc
new_proc-closed program pid parent (suc (suc (suc zero))) h = cc
new_proc-closed program pid parent (suc (suc (suc (suc f)))) h = cc

module _ {B D : Type 0} (disk : Disk D) (config : Config) where
  read_program-procs :
      (name : List ℕ) (file : ℕ) (k : Kernel B D)
      → (read_program disk config name file k).1.procs ≡ k.procs
  unfolding read_program
  read_program-procs name file k = ground arith

  disk_program-procs :
      (name : List ℕ) (k : Kernel B D) → (disk_program disk config name k).1.procs ≡ k.procs
  unfolding disk_program
  disk_program-procs name k = opened (fs_open disk name false k.fs)
    where
      opened :
          (r : Option ℕ × Fs D)
          → (elim r.0 as (λ x. Option (ℕ × Program) × Kernel B D) [
            | none ↦ (none, record k { fs = r.1 })
            | some file ↦
                if may_open file o_read k.procs
                then read_program disk config name file (record k { fs = r.1 })
                else (none, record k { fs = r.1 })
          ]).1.procs
            ≡ k.procs
      opened (none, fs') = refl
      opened (some file, fs') = elim (Bool-cases (may_open file o_read k.procs)) [
        | inl may ↦ rw may (read_program-procs name file _)
        | inr not_now ↦ rw not_now refl
      ]

  find_program-procs :
      (name : List ℕ) (k : Kernel B D) → (find_program disk config name k).1.procs ≡ k.procs
  unfolding find_program
  find_program-procs name k = elim (Option-cases (program_named name config.programs)) [
    | inl unlisted ↦ elim (Option-cases (disk_program disk config name k).0) [
      | inl missing ↦ rw (unlisted, missing, find_program) (disk_program-procs name k)
      | inr found ↦ rw (unlisted, found.1, find_program) (disk_program-procs name k)
    ]
    | inr listed ↦ rw (listed.1, find_program) refl
  ]

  load_image-procs :
      (file : Option ℕ) (program : Program) (k : Kernel B D)
      → (load_image disk config file program k).1.procs ≡ k.procs
  unfolding load_image
  load_image-procs none program k = refl
  load_image-procs (some file) program k = refl

  -- What a start leaves: the process of its pid, with the slots of its program and no file open, in a free entry.
  start-IsSafe :
      (i : ℕ) (program : Program) (args : List ℕ) (parent : ℕ) (k : Kernel B D)
      → find_slot program.load program.span k.procs 0 none ≡ some i
      → IsSafe k.procs
      → OnReturn (λ child k'. IsSafe k'.procs) (start disk config i program args parent k)
  unfolding start new_proc
  start-IsSafe i program args parent k found safe =
      OnReturn-bind (λ u l. l.procs ≡ set k.procs i made) (λ child l. IsSafe l.procs)
        (map_process config i program.stack _) _ (map_process-Keeps config i program.stack _)
        (λ u l same. rw same set_safe)
    where
      made : Proc
      made = new_proc program k.next_pid parent

      set_safe : IsSafe (set k.procs i made)
      set_safe =
          IsSafe-set k.procs i made safe
            (λ j away born lives.
              find_slot-clear program.load program.span k.procs 0 none i j found lives)
            (λ j f g away opened. absurd (new_proc-closed program k.next_pid parent f opened))
            (λ f g differ opened. absurd (new_proc-closed program k.next_pid parent f opened))

  pub spawn-IsSafe :
      (name args : List ℕ) (parent : ℕ) (k : Kernel B D)
      → IsSafe k.procs
      → OnReturn (λ child k'. IsSafe k'.procs) (spawn disk config name args parent k)
  unfolding spawn
  spawn-IsSafe name args parent k safe =
      by_program (find_program disk config name k) (find_program-procs name k)
    where
      goes : Option ℕ × Program → Kernel B D → Option ℕ → Outcome B D (Option ℕ)
      goes fp k₁ none = returns none k₁
      goes fp k₁ (some i) =
          if (load_image disk config fp.0 fp.1 k₁).0
          then start disk config i fp.1 args parent (load_image disk config fp.0 fp.1 k₁).1
          else returns none (load_image disk config fp.0 fp.1 k₁).1

      by_slot :
          (fp : Option ℕ × Program) (k₁ : Kernel B D) (slot : Option ℕ)
          → find_slot fp.1.load fp.1.span k₁.procs 0 none ≡ slot
          → k₁.procs ≡ k.procs
          → OnReturn (λ child k'. IsSafe k'.procs) (goes fp k₁ slot)
      by_slot fp k₁ none found same = rw same safe
      by_slot fp k₁ (some i) found same =
          elim (Bool-cases (load_image disk config fp.0 fp.1 k₁).0) [
            | inl loaded ↦ rw (loaded) (
                start-IsSafe i fp.1 args parent (load_image disk config fp.0 fp.1 k₁).1
                  (rw (load_image-procs fp.0 fp.1 k₁) found)
                  (rw (load_image-procs fp.0 fp.1 k₁, same) safe))
            | inr failed ↦ rw (failed) (rw (load_image-procs fp.0 fp.1 k₁, same) safe)
          ]

      by_program :
          (r : Option (Option ℕ × Program) × Kernel B D)
          → r.1.procs ≡ k.procs
          → OnReturn
              (λ child k'. IsSafe k'.procs)
              (elim r.0 as (λ x. Outcome B D (Option ℕ)) [
                | none ↦ returns none r.1
                | some (file, p) ↦ elim (find_slot p.load p.span r.1.procs 0 none) [
                  | none ↦ returns none r.1
                  | some i ↦
                      if (load_image disk config file p r.1).0
                      then start disk config i p args parent (load_image disk config file p r.1).1
                      else returns none (load_image disk config file p r.1).1
                ]
              ])
      by_program (none, k₁) same = rw same safe
      by_program (some (file, p), k₁) same =
          elim (Option-cases (find_slot p.load p.span k₁.procs 0 none)) [
            | inl full ↦ rw full (by_slot (file, p) k₁ none full same)
            | inr found ↦ rw (found.1) (by_slot (file, p) k₁ (some found.0) found.1 same)
          ]
