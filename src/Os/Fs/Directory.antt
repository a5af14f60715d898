-- ===== src/Os/Fs/Directory.antt =====
-- The directory of programs/rv32/os/fs.c: mounting, names, and the creation of files.
pub mod Scanning
pub mod Opening
mod Tests
use tiny_processors.Prelude.{
  ℕ, zero, suc, ◌+◌, ◌-◌, ◌*◌, ◌/◌, ◌%◌, ◌^◌, Bool, true, false, not, ◌&&◌, ◌||◌, List, [], ◌∷◌,
  Option, none, some, leb, ltb, ◌==◌, ◌!=◌, if◌then◌else◌, get_or, set,
}
use tiny_processors.Os.Disk.{Disk, virtio_sector}
use tiny_processors.Os.Fs.{
  Entry, Fs, magic, directory_sector, first_data, entries, fs_name_size, fs_capacity, char_at,
  no_entry,
}

-- The loop of `same` at byte `i`, with `left` bytes to go.
pub same_loop : ℕ → ℕ → List ℕ → List ℕ → Bool
same_loop zero i a b = true
same_loop (suc left) i a b = elim (char_at a i == char_at b i) [
  | false ↦ false
  | true ↦ elim (char_at a i == 0) [ true ↦ true | false ↦ same_loop left (i + 1) a b ]
]

pub same : List ℕ → List ℕ → Bool
same a b = same_loop fs_name_size 0 a b

-- `directory[i].name[0]`
pub named : Entry → Bool
named e = char_at e.name 0 != 0

pub in_use : Entry → Bool
unfolding named
in_use e = named e && not e.corrupt

-- The words and entries of a sector, as the C structs lie in memory.
unfoldable pub word_at : (ℕ → ℕ) → ℕ → ℕ
word_at bytes at =
    bytes at + 2 ^ 8 * bytes (at + 1) + 2 ^ 16 * bytes (at + 2) + 2 ^ 24 * bytes (at + 3)

pub word_byte : ℕ → ℕ → ℕ
word_byte word j = word / 2 ^ (8 * j) % 2 ^ 8

pub name_at : ℕ → (ℕ → ℕ) → ℕ → List ℕ
name_at zero bytes at = []
name_at (suc left) bytes at = bytes at ∷ name_at left bytes (at + 1)

pub entry_byte : Entry → ℕ → ℕ
unfolding word_byte
entry_byte e j =
    if ltb j 20
    then char_at e.name j
    else if ltb j 24
    then word_byte e.first (j - 20)
    else if ltb j 28
    then word_byte e.capacity (j - 24)
    else word_byte e.size (j - 28)

pub directory_byte : List Entry → ℕ → ℕ
unfolding entry_byte
directory_byte dir k = entry_byte (get_or dir (k / 32) no_entry) (k % 32)

-- The test of `fs_mount` on an entry, on a disk of `sectors`.
pub is_corrupt : ℕ → Entry → Bool
unfolding named
is_corrupt sectors e =
    named e
    && (ltb e.first first_data
        || ltb sectors e.capacity
        || ltb (sectors - e.capacity) e.first
        || ltb (e.capacity * virtio_sector % 2 ^ 32) e.size
        || char_at e.name (fs_name_size - 1) != 0)

pub entry_at : ℕ → (ℕ → ℕ) → ℕ → Entry
unfolding word_at name_at is_corrupt
entry_at sectors bytes at =
    let e : Entry = record {
      name = name_at fs_name_size bytes at;
      first = word_at bytes (at + 20);
      capacity = word_at bytes (at + 24);
      size = word_at bytes (at + 28);
      corrupt = false;
    } in
    record e { corrupt = is_corrupt sectors e }

pub read_entries : ℕ → ℕ → (ℕ → ℕ) → ℕ → List Entry
unfolding entry_at
read_entries zero sectors bytes at = []
read_entries (suc left) sectors bytes at =
    entry_at sectors bytes at ∷ read_entries left sectors bytes (at + 32)

-- The test of `fs_mount` on the superblock.
pub is_tfs : ℕ → (ℕ → ℕ) → Bool
unfolding word_at
is_tfs capacity block =
    word_at block 0 == magic
    && word_at block 8 == directory_sector
    && word_at block 12 == first_data
    && word_at block 16 == entries
    && leb (word_at block 4) capacity
    && ltb first_data (word_at block 4)

pub count_corrupt : List Entry → ℕ
count_corrupt [] = 0
count_corrupt (e ∷ rest) = (if e.corrupt then 1 else 0) + count_corrupt rest

-- The scan of `fs_open`: a file of the name, or the first free slot and the end of the last extent.
pub data Scan : Type 0 where
  found : ℕ → Scan
  missed : Option ℕ → ℕ → Scan

pub visit : List ℕ → ℕ → Entry → Option ℕ → ℕ → Scan
unfolding named same
visit name i e free next =
    if not (named e)
    then missed (elim free [ none ↦ some i | some j ↦ some j ]) next
    else if e.corrupt
    then missed free next
    else if same e.name name
    then found i
    else missed free (
        if ltb next ((e.first + e.capacity) % 2 ^ 32)
        then (e.first + e.capacity) % 2 ^ 32
        else next)

pub scan : List ℕ → List Entry → ℕ → Option ℕ → ℕ → Scan
scan name [] i free next = missed free next
scan name (e ∷ rest) i free next = elim (visit name i e free next) [
  | found j ↦ found j
  | missed free' next' ↦ scan name rest (i + 1) free' next'
]

-- `while (name[length] && length < FS_NAME)`, with `left` bytes to go.
pub length_loop : ℕ → ℕ → List ℕ → ℕ
length_loop zero i name = i
length_loop (suc left) i name = elim (char_at name i == 0) [
  | true ↦ i
  | false ↦ length_loop left (i + 1) name
]

pub name_bytes : ℕ → ℕ → ℕ → List ℕ → List ℕ
name_bytes zero i length name = []
name_bytes (suc left) i length name =
    (if ltb i length then char_at name i else 0) ∷ name_bytes left (i + 1) length name

pub new_entry : List ℕ → ℕ → ℕ → Entry
new_entry name length next = record {
  name = name_bytes fs_name_size 0 length name;
  first = next;
  capacity = fs_capacity;
  size = 0;
  corrupt = false;
}

module _ {D : Type 0} (disk : Disk D) where
  -- The directory's sector, once the superblock is tfs. Where that read fails, the directory stays as it was.
  pub read_directory : ℕ → Fs D → Bool × Fs D
  unfolding read_entries
  read_directory sectors fs =
      let (ok, bytes, d) = disk.transfer_in directory_sector 1 fs.driver in
      if ok
      then (
        true,
        record fs {
          directory = read_entries entries sectors bytes 0;
          sectors = sectors;
          mounted = true;
          driver = d;
        },
      )
      else (false, record fs { sectors = sectors; driver = d })

  pub fs_mount : ℕ → Fs D → Bool × Fs D
  unfolding is_tfs word_at read_directory
  fs_mount capacity fs =
      let (ok, block, d) = disk.transfer_in 0 1 fs.driver in
      if ok && is_tfs capacity block
      then read_directory (word_at block 4) (record fs { driver = d })
      else (false, record fs { driver = d })

  pub fs_corrupt : Fs D → ℕ
  fs_corrupt fs = count_corrupt fs.directory

  pub fs_flush : Fs D → Bool × Fs D
  fs_flush fs =
      let (stored, d) =
        disk.transfer_out directory_sector (directory_byte fs.directory) fs.driver in
      if fs.mounted then (stored, record fs { driver = d }) else (false, fs)

  -- A new file in a free slot, if its name and its extent fit.
  pub create : List ℕ → Option ℕ → ℕ → Fs D → Option ℕ × Fs D
  create name none next fs = (none, fs)
  create name (some slot) next fs =
      let length = length_loop fs_name_size 0 name in
      if leb fs_name_size length || ltb fs.sectors ((next + fs_capacity) % 2 ^ 32)
      then (none, fs)
      else let (stored, fs') =
          fs_flush (record fs { directory = set fs.directory slot (new_entry name length next) }) in
        (if stored then some slot else none, fs')

  pub fs_open : List ℕ → Bool → Fs D → Option ℕ × Fs D
  fs_open name may_create fs =
      if not fs.mounted || char_at name 0 == 0
      then (none, fs)
      else elim (scan name fs.directory 0 none first_data) [
        | found i ↦ (some i, fs)
        | missed free next ↦ if may_create then create name free next fs else (none, fs)
      ]

pub fs_truncate : {D : Type 0} → ℕ → Fs D → Fs D
fs_truncate file fs = record fs {
  directory = set fs.directory file (record (get_or fs.directory file no_entry) { size = 0 });
}

pub fs_size : {D : Type 0} → ℕ → Fs D → ℕ
fs_size file fs = (get_or fs.directory file no_entry).size

-- The `index`-th entry in use, for `fs_name`.
pub find_name : List Entry → ℕ → Option (List ℕ × ℕ)
find_name [] index = none
find_name (e ∷ rest) index = elim (in_use e) [
  | false ↦ find_name rest index
  | true ↦ elim (index == 0) [ true ↦ some (e.name, e.size) | false ↦ find_name rest (index - 1) ]
]

pub fs_name : {D : Type 0} → ℕ → Fs D → Option (List ℕ × ℕ)
fs_name index fs = if fs.mounted then find_name fs.directory index else none
