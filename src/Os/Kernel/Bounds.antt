-- ===== src/Os/Kernel/Bounds.antt =====
-- The bounds that the kernel puts on its processes: the memory they name, and their positions in files.
use tiny_processors.Prelude.{
  ℕ, ◌+◌, ◌-◌, ◌≤◌, ◌<◌, ◌≡◌, ◌⊎◌, inl, inr, arith, true, ◌||◌, none, some, ◌==◌, ltb, Bool-cases,
}
use tiny_processors.Prelude.Int.{ℤ, pos, negsuc, signed32}
use tiny_processors.Os.Kernel.{OpenFile, os_guard_size}
use tiny_processors.Os.Kernel.Memory.{user_range}
use tiny_processors.Os.Kernel.Files.{seek_to, seek_file}

-- A range that a process may name: it lies in the process's slots, and no byte of it is in the guard page.
abbrev pub IsNamed : (base span guard address len : ℕ) → Type 0
IsNamed base span guard address len =
    (base ≤ address)
    × (address + len ≤ base + span)
    × ((a : ℕ) → address ≤ a → a < address + len → (a < guard) ⊎ (guard + os_guard_size ≤ a))

-- `user_range` admits a range if and only if it lies in the slots of the process and no byte of
-- it is in the guard page.
pub user_range-IsNamed :
    (base span guard address len : ℕ)
    → (user_range base span guard address len ≡ true → IsNamed base span guard address len)
      × (IsNamed base span guard address len → user_range base span guard address len ≡ true)
unfolding user_range
user_range-IsNamed base span guard address len =
    (λ h. (ground arith, ground arith, λ a low high. ground arith), back)
  where
    back : IsNamed base span guard address len → user_range base span guard address len ≡ true
    back h = ground (arith, h.0, h.1, h.2 guard, h.2 address)

seek_to-le : (from size : ℕ) (offset : ℤ) (to : ℕ) → seek_to from size offset ≡ some to → to ≤ size
unfolding seek_to
seek_to-le from size (pos n) to h = elim (Bool-cases (ltb size (from + n))) [
  | inl past ↦ let bad : none ≡ some to = rw (past, seek_to) at h in cc
  | inr inside ↦
      let e : some (from + n) ≡ some to = rw (inside, seek_to) at h in
      let same : from + n ≡ to = cc in ground arith
]
seek_to-le from size (negsuc n) to h =
    elim (Bool-cases (ltb from (n + 1) || ltb size (from - (n + 1)))) [
      | inl past ↦ let bad : none ≡ some to = rw (past, seek_to) at h in cc
      | inr inside ↦
          let e : some (from - (n + 1)) ≡ some to = rw (inside, seek_to) at h in
          let same : from - (n + 1) ≡ to = cc in ground arith
    ]

-- A position that `seek_file` gives, from any of its three starts and with an offset of either
-- sign, is at most the size of the file.
pub seek_file-le :
    (o : OpenFile) (size offset whence to : ℕ)
    → seek_file o size offset whence ≡ some to
    → to ≤ size
unfolding seek_file
seek_file-le o size offset whence to h = elim (Bool-cases (whence == 0)) [
  | inl set ↦ seek_to-le 0 size (signed32 offset) to (rw (set, seek_file) at h)
  | inr not_set ↦ elim (Bool-cases (whence == 1)) [
    | inl here ↦
        seek_to-le o.position size (signed32 offset) to (rw (not_set, here, seek_file) at h)
    | inr not_here ↦ elim (Bool-cases (whence == 2)) [
      | inl end ↦
          seek_to-le size size (signed32 offset) to (rw (not_set, not_here, end, seek_file) at h)
      | inr bad ↦ let failed : none ≡ some to = rw (not_set, not_here, bad, seek_file) at h in cc
    ]
  ]
]
