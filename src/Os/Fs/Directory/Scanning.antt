-- ===== src/Os/Fs/Directory/Scanning.antt =====
-- What the scan of the directory for a name finds in a directory whose extents are bounded.
use tiny_processors.Prelude.{
  ℕ, zero, suc, ◌+◌, ◌*◌, ◌^◌, ◌≤◌, ◌<◌, ◌≡◌, ◌≢◌, refl, ◌⊎◌, inl, inr, arith, true, false, List,
  [], ◌∷◌, Option, none, some, Bool-cases, get_or,
}
use tiny_processors.Os.Disk.{virtio_sector}
use tiny_processors.Os.Fs.{Entry, Fs, no_entry, first_data}
use tiny_processors.Os.Fs.Directory.{same, named, in_use, Scan, found, missed, visit, scan}

-- An entry's extent lies behind the directory and on the disk, and its size within it.
pub record IsBounded (sectors : ℕ) (e : Entry) : Type 0 where
  pub behind : first_data ≤ e.first
  pub within : e.first + e.capacity ≤ sectors
  pub sized : e.size ≤ e.capacity * virtio_sector

abbrev pub Apart : Entry → Entry → Type 0
Apart e f = (e.first + e.capacity ≤ f.first) ⊎ (f.first + f.capacity ≤ e.first)

-- The entries in use are bounded, and no two share a sector.
pub record IsSound {D : Type 0} (fs : Fs D) : Type 0 where
  pub bounded :
      (i : ℕ)
      → in_use (get_or fs.directory i no_entry) ≡ true
      → IsBounded fs.sectors (get_or fs.directory i no_entry)
  pub apart :
      (i j : ℕ)
      → i ≢ j
      → in_use (get_or fs.directory i no_entry) ≡ true
      → in_use (get_or fs.directory j no_entry) ≡ true
      → Apart (get_or fs.directory i no_entry) (get_or fs.directory j no_entry)

-- What the scan of a directory from index `i` on finds.
abbrev pub Scanned : List Entry → ℕ → Option ℕ → ℕ → List ℕ → Scan → Type 0
Scanned dir i free next name (found j) =
    (k : ℕ) × (j ≡ i + k)
    × (in_use (get_or dir k no_entry) ≡ true)
    × (same (get_or dir k no_entry).name name ≡ true)
Scanned dir i free next name (missed free' next') =
    (next ≤ next')
    × (next' < 2 ^ 24)
    × ((k : ℕ)
        → in_use (get_or dir k no_entry) ≡ true
        → (get_or dir k no_entry).first + (get_or dir k no_entry).capacity ≤ next')
    × ((s : ℕ)
        → free' ≡ some s
        → (free ≡ some s) ⊎ ((k : ℕ) × (s ≡ i + k) × (named (get_or dir k no_entry) ≡ false)))

pub unused : in_use no_entry ≡ false
unfolding in_use
unused = refl

-- The step of the scan at one entry.
abbrev Visited : Entry → ℕ → Option ℕ → ℕ → List ℕ → Scan → Type 0
Visited e i free next name (found j) = (j ≡ i) × (in_use e ≡ true) × (same e.name name ≡ true)
Visited e i free next name (missed free' next') =
    (next ≤ next')
    × (next' < 2 ^ 24)
    × (in_use e ≡ true → e.first + e.capacity ≤ next')
    × ((s : ℕ) → free' ≡ some s → (free ≡ some s) ⊎ ((s ≡ i) × (named e ≡ false)))

visit-Visited :
    (sectors : ℕ) (e : Entry) (i : ℕ) (free : Option ℕ) (next : ℕ) (name : List ℕ)
    → sectors ≤ 2 ^ 23
    → next < 2 ^ 24
    → (in_use e ≡ true → IsBounded sectors e)
    → Visited e i free next name (visit name i e free next)
unfolding visit in_use
visit-Visited sectors e i free next name small low bound = elim (Bool-cases (named e)) [
  | inr empty ↦ rw (empty, visit) (empty_slot free empty)
  | inl full ↦ elim (Bool-cases e.corrupt) [
    | inl bad ↦ rw (full, bad, visit) (omega arith, low, λ used. ground arith, λ s h. inl h)
    | inr good ↦ elim (Bool-cases (same e.name name)) [
      | inl hit ↦ rw (full, good, hit, visit) (refl, ground arith, hit)
      | inr other ↦
          let b : IsBounded sectors e = bound (ground arith) in
          rw (full, good, other, visit)
            (ground arith, ground (arith, b.within), λ used. ground (arith, b.within), λ s h. inl h)
    ]
  ]
]
  where
    empty_slot :
        (free : Option ℕ)
        → named e ≡ false
        → Visited e i free next name (missed (elim free [ none ↦ some i | some j ↦ some j ]) next)
    empty_slot none empty =
        (omega arith, low, λ used. ground arith, λ s h. inr (ground arith, empty))
    empty_slot (some j) empty = (omega arith, low, λ used. ground arith, λ s h. inl h)

pub scan-Scanned :
    (sectors : ℕ) (dir : List Entry) (i : ℕ) (free : Option ℕ) (next : ℕ) (name : List ℕ)
    → sectors ≤ 2 ^ 23
    → next < 2 ^ 24
    → ((k : ℕ) → in_use (get_or dir k no_entry) ≡ true → IsBounded sectors (get_or dir k no_entry))
    → Scanned dir i free next name (scan name dir i free next)
unfolding scan
scan-Scanned sectors [] i free next name small low bound =
    (omega arith, low, λ k used. absurd (ground (arith, unused)), λ s h. inl h)
scan-Scanned sectors (e ∷ rest) i free next name small low bound =
    onward (visit name i e free next) (visit-Visited sectors e i free next name small low (bound 0))
      (λ free' next' low'.
        scan-Scanned sectors rest (i + 1) free' next' name small low' (λ k. bound (suc k)))
  where
    onward :
        (v : Scan)
        → Visited e i free next name v
        → ((free' : Option ℕ) (next' : ℕ)
            → next' < 2 ^ 24
            → Scanned rest (i + 1) free' next' name (scan name rest (i + 1) free' next'))
        → Scanned
            (e ∷ rest)
            i
            free
            next
            name
            (elim v [ found j ↦ found j | missed free' next' ↦ scan name rest (i + 1) free' next' ])
    onward (found j) hit again = (0, omega (arith, hit.0), hit.1, hit.2)
    onward (missed free' next') seen again =
        later (scan name rest (i + 1) free' next') (again free' next' seen.1)
      where
        later :
            (r : Scan)
            → Scanned rest (i + 1) free' next' name r
            → Scanned (e ∷ rest) i free next name r
        later (found j) hit = (suc hit.0, omega (arith, hit.1), hit.2, hit.3)
        later (missed free'' next'') all = (omega (arith, seen.0, all.0), all.1, ends, slots)
          where
            ends :
                (k : ℕ)
                → in_use (get_or (e ∷ rest) k no_entry) ≡ true
                → (get_or (e ∷ rest) k no_entry).first + (get_or (e ∷ rest) k no_entry).capacity
                  ≤ next''
            ends zero used = omega (arith, seen.2 used, all.0)
            ends (suc k) used = all.2 k used

            slots :
                (s : ℕ)
                → free'' ≡ some s
                → (free ≡ some s)
                  ⊎ ((k : ℕ) × (s ≡ i + k) × (named (get_or (e ∷ rest) k no_entry) ≡ false))
            slots s h = elim (all.3 s h) [
              | inr (k, at, empty) ↦ inr (suc k, omega (arith, at), empty)
              | inl before ↦ elim (seen.3 s before) [
                | inl earlier ↦ inl earlier
                | inr (at, empty) ↦ inr (0, omega (arith, at), empty)
              ]
            ]

-- Every entry with a name stands where it was.
