-- ===== src/Os/Fs/Data/Saved.antt =====
-- With a disk that serves the file's extent, what `fs_write` writes is what `fs_read` reads.
use tiny_processors.Prelude.{
  ℕ, zero, suc, ◌+◌, ◌-◌, ◌/◌, ◌%◌, ◌≤◌, ◌<◌, ◌≡◌, ap, inl, inr, arith, true, ◌&&◌, ltb, ◌!=◌, set,
  if◌then◌else◌, Bool-cases, get_or, length, get_or-set_self, get_or-past,
}
use tiny_processors.Os.Disk.{Disk, IsDisk, IsReliable, virtio_sector}
use tiny_processors.Os.Fs.{Entry, Fs, no_entry}
use tiny_processors.Os.Fs.Data.{
  Count, fs_error, count, Transfer, failed, moved, sector_of, limit_of, direct_sectors, copied,
  store_sector, write_round, write_loop, fs_write, read_direct, read_buffered, read_round,
  read_loop, fs_read,
}
use tiny_processors.Os.Fs.Data.Place.{
  IsPlaced, place, limit, limit_of_lem, sector_of_lem, direct_sectors-le, written, grown,
}
use tiny_processors.Os.Fs.Data.Reading.{ReadResult, fs_read-Reads}
use tiny_processors.Os.Fs.Data.Writing.{WriteResult, fs_write-Writes}

-- A round that goes, and a call that returns a count, both with a driver that is sound.
abbrev Goes : {S : Type 0} → (S → Type 0) → Transfer S → Type 0
Goes sound (failed s) = ⊥
Goes sound (moved n s) = sound s

abbrev Counts : {S : Type 0} → (S → Type 0) → Count × S → Type 0
Counts sound (fs_error, s) = ⊥
Counts sound (count c, s) = sound s

module _ {D : Type 0} (disk : Disk D) {sound : D → Type 0} (e : Entry) (placed : IsPlaced e)
    (reliable : IsReliable disk sound e.first e.capacity) where
  -- The sector of a byte of the file is one of the extent.
  load :
      (position whole : ℕ) (d : D)
      → position < limit e
      → sound d
      → 0 < whole
      → position / virtio_sector + whole ≤ e.capacity
      → ((disk.transfer_in (sector_of e position) whole d).0 ≡ true)
        × sound (disk.transfer_in (sector_of e position) whole d).2
  load position whole d inside safe some within =
      reliable.loads (sector_of e position) whole d safe some
        (omega (arith, sector_of_lem e placed position inside))
        (omega (arith, sector_of_lem e placed position inside))

  store_sector-Goes :
      (position at n : ℕ) (from got : ℕ → ℕ) (d : D)
      → position < limit e
      → sound d
      → Goes sound (store_sector disk (sector_of e position) at n from got d)
  unfolding store_sector
  store_sector-Goes position at n from got d inside safe =
      let put = copied at n from got in
      let done =
        reliable.stores (sector_of e position) put d safe
          (omega (arith, sector_of_lem e placed position inside))
          (omega (arith, sector_of_lem e placed position inside)) in
      rw (done.0, store_sector) (done.1)

  write_round-Goes :
      (position : ℕ) (from : ℕ → ℕ) (left : ℕ) (d : D)
      → position < limit e
      → sound d
      → Goes sound (write_round disk e position from left d)
  unfolding write_round
  write_round-Goes position from left d inside safe =
      let done = load position 1 d inside safe (omega arith) (omega arith) in
      rw (done.0, write_round)
        (store_sector-Goes position (position % virtio_sector) _ from _ _ inside (done.1))

  -- The driver that a loop of the two calls leaves.
  abbrev Ends : {S : Type 0} → Count × (S × D) → Type 0
  Ends r = Counts (λ s. sound s.1) r

  write_loop-Ends :
      (fuel : ℕ) (position : ℕ) (from : ℕ → ℕ) (length done size : ℕ) (d : D)
      → sound d
      → Ends (write_loop disk fuel e position from length done (size, d))
  unfolding write_loop
  write_loop-Ends zero position from length done size d safe = safe
  write_loop-Ends (suc fuel) position from length done size d safe =
      elim (Bool-cases (ltb done length && ltb position (limit_of e))) [
        | inr over ↦ rw (over, write_loop) safe
        | inl going ↦
            rw (going, write_loop)
              (next (λ n d'. write_loop-Ends fuel (position + n) from length (done + n) _ d') _
                (write_round-Goes position (λ k. from (done + k)) (length - done) d
                  (ground (arith, limit_of_lem e placed)) safe))
      ]
    where
      next :
          ((n : ℕ) (d' : D)
            → sound d'
            → Ends (
                write_loop disk fuel e
                  (position + n)
                  from
                  length
                  (done + n)
                  (if ltb size (position + n) then position + n else size, d')))
          → (r : Transfer D) → Goes sound r
          → Ends (elim r as (λ x. Count × (ℕ × D)) [
            | failed d' ↦ (fs_error, (size, d'))
            | moved n d' ↦
                write_loop disk fuel e
                  (position + n)
                  from
                  length
                  (done + n)
                  (if ltb size (position + n) then position + n else size, d')
          ])
      next rest (failed d') h = h
      next rest (moved n d') h = rest n d' h

  module _ (fits : e.size ≤ limit e) where
    read_round-Goes :
        (position to left : ℕ) (memory : ℕ → ℕ) (d : D)
        → position < e.size
        → sound d
        → Goes (λ s. sound s.1) (read_round disk e position to left (memory, d))
    unfolding read_round read_direct read_buffered
    read_round-Goes position to left memory d inside safe =
        elim (Bool-cases (direct_sectors e position to left != 0)) [
          | inl direct ↦
              let some : 0 < direct_sectors e position to left = ground arith in
              let fit = direct_sectors-le e position to left direct in
              let done =
                load position (direct_sectors e position to left) d (omega arith) safe some
                  (omega (arith, fit.0, fit.1)) in
              rw (direct, done.0) (done.1)
          | inr buffered ↦
              let done = load position 1 d (omega arith) safe (omega arith) (omega arith) in
              rw (buffered, done.0) (done.1)
        ]

    read_loop-Ends :
        (fuel : ℕ) (position to length done : ℕ) (memory : ℕ → ℕ) (d : D)
        → sound d
        → Ends (read_loop disk fuel e position to length done (memory, d))
    unfolding read_loop
    read_loop-Ends zero position to length done memory d safe = safe
    read_loop-Ends (suc fuel) position to length done memory d safe =
        elim (Bool-cases (ltb done length && ltb position e.size)) [
          | inr over ↦ rw (over, read_loop) safe
          | inl going ↦
              rw (going, read_loop)
                (next
                  (λ n memory' d'.
                    read_loop-Ends fuel (position + n) to length (done + n) memory' d')
                  _
                  (read_round-Goes position (to + done) (length - done) memory d (ground arith)
                    safe))
        ]
      where
        next :
            ((n : ℕ) (memory' : ℕ → ℕ) (d' : D)
              → sound d'
              → Ends (read_loop disk fuel e (position + n) to length (done + n) (memory', d')))
            → (r : Transfer ((ℕ → ℕ) × D)) → Goes (λ s. sound s.1) r
            → Ends (elim r as (λ x. Count × ((ℕ → ℕ) × D)) [
              | failed s' ↦ (fs_error, s')
              | moved n s' ↦ read_loop disk fuel e (position + n) to length (done + n) s'
            ])
        next rest (failed s') h = h
        next rest (moved n (memory', d')) h = rest n memory' d' h

-- An entry that lies on the disk is one of the directory's.
in_directory :
    {D : Type 0} (fs : Fs D) (file : ℕ)
    → IsPlaced (get_or fs.directory file no_entry)
    → file < length fs.directory
in_directory fs file placed = elim (Bool-cases (ltb file (length fs.directory))) [
  | inl inside ↦ ground arith
  | inr past ↦
      absurd (ground (arith, placed.behind, get_or-past fs.directory file no_entry (ground arith)))
]

module _ {D : Type 0} (disk : Disk D) {bytes : D → ℕ → ℕ} (law : IsDisk disk bytes) where
  -- A read that returns `n` and leaves those bytes of `from` at `to` in memory, and no other change.
  abbrev pub Delivers : ℕ → ℕ → (ℕ → ℕ) → (ℕ → ℕ) → Count × (ℕ → ℕ) × Fs D → Type 0
  Delivers to n from memory (fs_error, memory', fs) = ⊥
  Delivers to n from memory (count c, memory', fs) =
      (c ≡ n) × ((at : ℕ) → memory' at ≡ copied to n from memory at)

  delivered :
      (sound : D → Type 0) (position total to : ℕ) (from memory : ℕ → ℕ) (before fs : Fs D)
      (r : Count × (ℕ → ℕ) × Fs D) (e : Entry)
      → ((at : ℕ)
          → bytes fs.driver at
            ≡ copied (place e position) (written e position total) from (bytes before.driver) at)
      → Counts (λ s. sound s.driver) (r.0, r.2)
      → ReadResult disk law position to
          (written e position total)
          memory
          (record e { size = grown e position total e.size })
          fs
          r
      → Delivers to (written e position total) from memory r
  delivered sound position total to from memory before fs (fs_error, memory', fs') e wrote counted
        result =
      absurd counted
  delivered sound position total to from memory before fs (count c, memory', fs') e wrote counted
        result =
      (
        ground (arith, result.0),
        λ at.
            let same_byte : place e position + (at - to) - place e position ≡ at - to =
              omega arith in
            ground (arith, result.1 at, wrote (place e position + (at - to)), ap from same_byte),
      )

  -- The statement of the round trip for a file of entry `e`, by what the write returned.
  abbrev pub Saves : ℕ → ℕ → ℕ → ℕ → (ℕ → ℕ) → (ℕ → ℕ) → Entry → Count × Fs D → Type 0
  Saves file position total to from memory e (result, fs) =
      (result ≡ count (written e position total))
      × Delivers to (written e position total) from memory
          (fs_read disk file position to (written e position total) memory fs)

  module _ {sound : D → Type 0} where
    fs_read-Ends :
        (file position to total : ℕ) (memory : ℕ → ℕ) (fs : Fs D)
        → IsPlaced (get_or fs.directory file no_entry)
        → (get_or fs.directory file no_entry).size ≤ limit (get_or fs.directory file no_entry)
        → IsReliable disk sound
            (get_or fs.directory file no_entry).first
            (get_or fs.directory file no_entry).capacity
        → sound fs.driver
        → Counts
            (λ s. sound s.driver)
            (
              (fs_read disk file position to total memory fs).0,
              (fs_read disk file position to total memory fs).2,
            )
    unfolding fs_read
    fs_read-Ends file position to total memory fs placed fits reliable safe = ends _ (
        read_loop-Ends disk (get_or fs.directory file no_entry) placed reliable fits total position
          to total 0 memory fs.driver safe)
      where
        ends :
            (r : Count × ((ℕ → ℕ) × D))
            → Counts (λ s. sound s.1) r
            → Counts (λ s. sound s.driver) (r.0, record fs { driver = r.1.1 })
        ends (fs_error, s) h = h
        ends (count c, s) h = h

  saved :
      {sound : D → Type 0} (file position total to : ℕ) (from memory : ℕ → ℕ) (before : Fs D)
      (e : Entry) (r : Count × Fs D)
      → file < length before.directory
      → IsPlaced e
      → e.size ≤ limit e
      → IsReliable disk sound e.first e.capacity
      → Counts (λ s. sound s.driver) r
      → WriteResult disk law file position from total e before r
      → Saves file position total to from memory e r
  saved file position total to from memory before e (fs_error, fs) inside placed fits reliable safe
        result =
      absurd safe
  saved {sound} file position total to from memory before e (count c, fs) inside placed fits
        reliable safe result =
      let n : ℕ = written e position total in
      let laid : IsPlaced (get_or fs.directory file no_entry) =
        rw new_entry (record { behind = placed.behind; within = placed.within }) in
      let held : (get_or fs.directory file no_entry).size
          ≤ limit (get_or fs.directory file no_entry) =
        rw new_entry (ground arith) in
      (
        ap count result.0,
        delivered sound position total to from memory before fs
            (fs_read disk file position to n memory fs) e result.1
            (fs_read-Ends file position to n memory fs laid held (rw new_entry reliable) safe)
            (rw new_entry at (fs_read-Reads disk law file position to n memory fs laid held)),
      )
    where
      new_entry :
          get_or fs.directory file no_entry ≡ record e { size = grown e position total e.size }
      new_entry = rw result.2 (get_or-set_self before.directory file _ no_entry inside)

  -- On a disk that keeps its law, for a file whose extent lies behind the directory and below
  -- sector 2 ^ 23 and whose size its extent holds: if, as long as its driver is sound, the disk
  -- succeeds in the transfers within that extent and leaves the driver sound, then from a sound
  -- driver `fs_write` returns the count of the bytes that fit, and `fs_read` at the same position
  -- then returns that count, leaves those bytes in memory and changes no other byte of it.
  pub fs_read-write :
      {sound : D → Type 0} (file position total to : ℕ) (from memory : ℕ → ℕ) (fs : Fs D)
      → IsPlaced (get_or fs.directory file no_entry)
      → (get_or fs.directory file no_entry).size ≤ limit (get_or fs.directory file no_entry)
      → IsReliable disk sound
          (get_or fs.directory file no_entry).first
          (get_or fs.directory file no_entry).capacity
      → sound fs.driver
      → Saves file position total to from memory
          (get_or fs.directory file no_entry)
          (fs_write disk file position from total fs)
  unfolding fs_write
  fs_read-write {sound} file position total to from memory fs placed fits reliable safe =
      saved {sound = sound} file position total to from memory fs
        (get_or fs.directory file no_entry) _ (in_directory fs file placed) placed fits reliable
        (ends _ (
          write_loop-Ends disk (get_or fs.directory file no_entry) placed reliable total position
            from total 0 _ fs.driver safe))
        (fs_write-Writes disk law file position total from fs placed)
    where
      ends :
          (r : Count × (ℕ × D))
          → Counts (λ s. sound s.1) r
          → Counts
              (λ s. sound s.driver)
              (
                r.0,
                record fs {
                  directory =
                      set fs.directory file
                        (record (get_or fs.directory file no_entry) { size = r.1.0 });
                  driver = r.1.1;
                },
              )
      ends (fs_error, s) h = h
      ends (count c, s) h = h
