-- ===== src/Os/Fs/Directory/Opening.antt =====
-- Opening and creating files: where `fs_open` puts a new file, and what it leaves alone.
use tiny_processors.Prelude.{
  ℕ, ◌+◌, ◌%◌, ◌^◌, ◌≤◌, ◌<◌, ◌≡◌, ◌≢◌, refl, sym, ◌∙◌, ap, ◌⊎◌, inl, inr, arith, Bool, true, false,
  not, ◌||◌, List, Option, none, some, leb, ltb, ◌==◌, if◌then◌else◌, Bool-cases, get_or, set,
  length, get_or-set, get_or-past,
}
use tiny_processors.Os.Disk.{Disk}
use tiny_processors.Os.Fs.{Entry, Fs, no_entry, first_data, fs_capacity, fs_name_size, char_at}
use tiny_processors.Os.Fs.Directory.{
  named, in_use, Scan, found, missed, scan, length_loop, new_entry, fs_flush, create, fs_open,
}
use tiny_processors.Os.Fs.Directory.Scanning.{
  IsBounded, Apart, IsSound, Scanned, scan-Scanned, unused,
}

abbrev pub Kept : {D : Type 0} → Fs D → Fs D → Type 0
Kept fs fs' =
    (k : ℕ)
    → named (get_or fs.directory k no_entry) ≡ true
    → get_or fs'.directory k no_entry ≡ get_or fs.directory k no_entry

-- What stands at `i` once `e` is put at `slot`.
set-cases :
    (dir : List Entry) (slot : ℕ) (e : Entry) (i : ℕ)
    → ((i ≡ slot) × (get_or (set dir slot e) i no_entry ≡ e))
      ⊎ ((get_or (set dir slot e) i no_entry ≡ get_or dir i no_entry)
          × (in_use (get_or dir i no_entry) ≡ true → i ≢ slot))
set-cases dir slot e i = elim (Bool-cases (slot == i)) [
  | inr other ↦ inr (get_or-set dir slot i e no_entry ∙ ground arith, λ used. ground arith)
  | inl here ↦ elim (Bool-cases (ltb slot (length dir))) [
    | inl inside ↦ inl (ground arith, get_or-set dir slot i e no_entry ∙ ground arith)
    | inr past ↦ inr (
      get_or-set dir slot i e no_entry ∙ ground arith,
      λ used. absurd (ground (arith, unused, get_or-past dir i no_entry (ground arith))),
    )
  ]
]

swap-Apart : (e f : Entry) → Apart e f → Apart f e
swap-Apart e f (inl before) = inr before
swap-Apart e f (inr behind) = inl behind

-- A write of the directory changes nothing but the driver's state.
pub fs_flush-frame :
    {D : Type 0} (disk : Disk D) (fs : Fs D)
    → (d : D) × ((fs_flush disk fs).1 ≡ record fs { driver = d })
unfolding fs_flush
fs_flush-frame {D} disk fs = by_mounted fs.mounted _ _
  where
    by_mounted :
        (mounted stored : Bool) (d : D)
        → (d' : D) × ((if◌then◌else◌ {A = Bool × Fs D} mounted
              (stored, record fs { driver = d })
              (false, fs)).1
            ≡ record fs { driver = d' })
    by_mounted true stored d = (d, refl)
    by_mounted false stored d = (fs.driver, refl)

-- A new entry of eight sectors at `next`, apart from what ends there.
new_entry-IsBounded :
    (sectors length next : ℕ) (name : List ℕ)
    → first_data ≤ next
    → next + fs_capacity ≤ sectors
    → IsBounded sectors (new_entry name length next)
unfolding new_entry
new_entry-IsBounded sectors length next name behind fits = record {
  behind = behind;
  within = fits;
  sized = omega arith;
}

new_entry-Apart :
    (length next : ℕ) (name : List ℕ) (e : Entry)
    → e.first + e.capacity ≤ next
    → Apart e (new_entry name length next)
unfolding new_entry
new_entry-Apart length next name e ends = inl ends

module _ {D : Type 0} (fs : Fs D) (sound : IsSound fs) where
  -- A bounded entry put in a slot, apart from those in the other slots.
  pub set-IsSound :
      (slot : ℕ) (e : Entry)
      → IsBounded fs.sectors e
      → ((k : ℕ)
          → in_use (get_or fs.directory k no_entry) ≡ true
          → k ≢ slot
          → Apart (get_or fs.directory k no_entry) e)
      → (d : D) → IsSound (record fs { directory = set fs.directory slot e; driver = d })
  set-IsSound slot e bounded apart d = record {
    bounded = λ i used. elim (set-cases fs.directory slot e i) [
      | inl (here, is) ↦ rw is bounded
      | inr (is, other) ↦ rw is (sound.bounded i (rw is at used))
    ];
    apart = λ i j differ used_i used_j. elim (set-cases fs.directory slot e i) [
      | inl (here_i, is_i) ↦ elim (set-cases fs.directory slot e j) [
        | inl (here_j, is_j) ↦ absurd (differ (here_i ∙ sym here_j))
        | inr (is_j, other) ↦
            rw (is_i, is_j)
              (swap-Apart (get_or fs.directory j no_entry) e
                (apart j (rw is_j at used_j) (other (rw is_j at used_j))))
      ]
      | inr (is_i, other) ↦ elim (set-cases fs.directory slot e j) [
        | inl (here_j, is_j) ↦
            rw (is_i, is_j) (apart i (rw is_i at used_i) (other (rw is_i at used_i)))
        | inr (is_j, other_j) ↦
            rw (is_i, is_j) (sound.apart i j differ (rw is_i at used_i) (rw is_j at used_j))
      ]
    ];
  }

  set-Kept :
      (slot : ℕ) (e : Entry)
      → named (get_or fs.directory slot no_entry) ≡ false
      → (d : D) → Kept fs (record fs { directory = set fs.directory slot e; driver = d })
  set-Kept slot e empty d k full = elim (set-cases fs.directory slot e k) [
    | inl (here, is) ↦
        absurd (ground (arith, ap (λ i. named (get_or fs.directory i no_entry)) here))
    | inr (is, other) ↦ is
  ]

  module _ (disk : Disk D) (small : fs.sectors ≤ 2 ^ 23) where
    abbrev pub Opened : Option ℕ × Fs D → Type 0
    Opened r = IsSound r.1 × Kept fs r.1

    create-Opened :
        (name : List ℕ) (free : Option ℕ) (next : ℕ)
        → first_data ≤ next
        → next < 2 ^ 24
        → ((k : ℕ)
            → in_use (get_or fs.directory k no_entry) ≡ true
            → (get_or fs.directory k no_entry).first + (get_or fs.directory k no_entry).capacity
              ≤ next)
        → ((s : ℕ) → free ≡ some s → named (get_or fs.directory s no_entry) ≡ false)
        → Opened (create disk name free next fs)
    unfolding create
    create-Opened name none next behind low ends empty = (sound, λ k full. refl)
    create-Opened name (some slot) next behind low ends empty =
        elim (Bool-cases
          (leb fs_name_size length' || ltb fs.sectors ((next + fs_capacity) % 2 ^ 32))) [
            | inl refused ↦ rw (refused, create) (sound, λ k full. refl)
            | inr fits ↦ rw (fits, create) (added fits)
          ]
      where
        length' : ℕ
        length' = length_loop fs_name_size 0 name

        fs' : Fs D
        fs' = record fs { directory = set fs.directory slot (new_entry name length' next) }

        added :
            (leb fs_name_size length' || ltb fs.sectors ((next + fs_capacity) % 2 ^ 32)) ≡ false
            → IsSound (fs_flush disk fs').1 × Kept fs (fs_flush disk fs').1
        added fits =
            let (d, is) = fs_flush-frame disk fs' in
            rw is (
              set-IsSound slot (new_entry name length' next)
                  (new_entry-IsBounded fs.sectors length' next name behind (ground arith))
                  (λ k used other.
                    new_entry-Apart length' next name (get_or fs.directory k no_entry)
                      (ends k used))
                  d,
              set-Kept slot (new_entry name length' next) (empty slot refl) d,
            )

    -- For a directory of a file system of at most 2 ^ 23 sectors whose entries in use have
    -- extents that lie behind the directory and on the disk, hold their sizes and share no
    -- sector, `fs_open` of any name, whether it may create the file or not and whether the
    -- transfers succeed or not, leaves such a directory and every named entry as it was.
    pub fs_open-Opened :
        (name : List ℕ) (may_create : Bool) → Opened (fs_open disk name may_create fs)
    unfolding fs_open
    fs_open-Opened name may_create = elim (Bool-cases (not fs.mounted || char_at name 0 == 0)) [
      | inl refused ↦ rw (refused, fs_open) (sound, λ k full. refl)
      | inr going ↦
          rw (going, fs_open)
            (by_scan (scan name fs.directory 0 none first_data) (
              scan-Scanned fs.sectors fs.directory 0 none first_data name small (omega arith)
                sound.bounded))
    ]
      where
        by_scan :
            (r : Scan)
            → Scanned fs.directory 0 none first_data name r
            → Opened (elim r [
              | found i ↦ (some i, fs)
              | missed free next ↦ if may_create then create disk name free next fs else (none, fs)
            ])
        by_scan (found i) hit = (sound, λ k full. refl)
        by_scan (missed free next) seen = elim (Bool-cases may_create) [
          | inr no_more ↦ rw no_more (sound, λ k full. refl)
          | inl wanted ↦ rw wanted (
              create-Opened name free next seen.0 seen.1 seen.2 (λ s is. elim (seen.3 s is) [
                | inl never ↦ cc
                | inr (k, at, empty) ↦ let here : s ≡ k = omega (arith, at) in rw here empty
              ]))
        ]
