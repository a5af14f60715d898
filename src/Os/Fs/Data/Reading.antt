-- ===== src/Os/Fs/Data/Reading.antt =====
-- What `fs_read` leaves in memory, by either of its two paths.
use tiny_processors.Prelude.{
  ℕ, zero, suc, ◌+◌, ◌-◌, ◌*◌, ◌%◌, ◌≤◌, ◌<◌, ◌≡◌, refl, ◌∙◌, ap, subst, min, inl, inr, arith, true,
  false, ◌&&◌, leb, ltb, ◌!=◌, Bool-cases, get_or,
}
use tiny_processors.Os.Disk.{Disk, IsDisk, virtio_sector}
use tiny_processors.Os.Fs.{Entry, Fs, no_entry}
use tiny_processors.Os.Fs.Data.{
  Count, fs_error, count, Transfer, failed, moved, sector_of, copy_count, copied, direct_sectors,
  read_direct, read_buffered, read_round, read_loop, fs_read,
}
use tiny_processors.Os.Fs.Data.Place.{
  IsPlaced, place, limit, copy_count_lem, sector_of_lem, direct_sectors-le, step_count, available,
}

module _ {D : Type 0} (disk : Disk D) {bytes : D → ℕ → ℕ} (law : IsDisk disk bytes) where
  -- Memory holds `n` bytes of the file at `to`, and nothing else has changed.
  abbrev pub Filled : Entry → ℕ → ℕ → ℕ → D → (ℕ → ℕ) → (ℕ → ℕ) → Type 0
  Filled e position to n d memory memory' =
      (at : ℕ) → memory' at ≡ copied to n (λ k. bytes d (place e position + k)) memory at

  abbrev pub Same : D → D → Type 0
  Same d d' = (at : ℕ) → bytes d' at ≡ bytes d at

  -- Outside the `n` bytes at `to` memory is as it was.
  abbrev pub Outside : ℕ → ℕ → (ℕ → ℕ) → (ℕ → ℕ) → Type 0
  Outside to n memory memory' =
      (at : ℕ) → (leb to at && ltb at (to + n)) ≡ false → memory' at ≡ memory at

  abbrev RoundRead : Entry → ℕ → ℕ → ℕ → (ℕ → ℕ) → D → Transfer ((ℕ → ℕ) × D) → Type 0
  RoundRead e position to left memory d (failed (memory', d')) =
      Outside to left memory memory' × Same d d'
  RoundRead e position to left memory d (moved n (memory', d')) =
      (0 < n)
      × (n ≤ min left (e.size - position))
      × Filled e position to n d memory memory'
      × Same d d'

  module _ (e : Entry) (placed : IsPlaced e) (fits : e.size ≤ limit e) (position : ℕ)
      (inside : position < e.size) where
    read_buffered-Read :
        (to left : ℕ) (memory : ℕ → ℕ) (d : D)
        → 0 < left
        → RoundRead e position to left memory d (read_buffered disk e position to left (memory, d))
    unfolding read_buffered
    read_buffered-Read to left memory d more =
        elim (Bool-cases (disk.transfer_in (sector_of e position) 1 d).0) [
          | inr refused ↦ rw refused (λ at outside. refl, law.read_keeps (sector_of e position) 1 d)
          | inl answered ↦ rw answered (
            omega (arith, count_is),
            omega (arith, count_is),
            λ at. ground (arith, count_is, got answered at),
            law.read_keeps (sector_of e position) 1 d,
          )
        ]
      where
        start : ℕ
        start = position % virtio_sector

        count_is :
            copy_count (virtio_sector - start) left (e.size - position)
            ≡ step_count position left (e.size - position)
        count_is = copy_count_lem (virtio_sector - start) left (e.size - position)

        got :
            (disk.transfer_in (sector_of e position) 1 d).0 ≡ true
            → (at : ℕ) → at - to < virtio_sector - start
            → (disk.transfer_in (sector_of e position) 1 d).1 (start + (at - to))
              ≡ bytes d (place e position + (at - to))
        got answered at small =
            law.reads (sector_of e position) 1 d answered (start + (at - to)) (omega arith)
            ∙ ap (bytes d) (omega (arith, sector_of_lem e placed position (omega arith)))

    read_direct-Read :
        (whole to left : ℕ) (memory : ℕ → ℕ) (d : D)
        → 0 < whole
        → position % virtio_sector ≡ 0
        → whole * virtio_sector ≤ min left (e.size - position)
        → RoundRead e position to left memory d
            (read_direct disk (sector_of e position) whole to (memory, d))
    unfolding read_direct
    read_direct-Read whole to left memory d some_whole aligned most =
        elim (Bool-cases (disk.transfer_in (sector_of e position) whole d).0) [
          | inr refused ↦
              rw refused (λ at outside. ground arith, law.read_keeps (sector_of e position) whole d)
          | inl answered ↦ rw answered (
            omega arith,
            most,
            λ at. ground (arith, got answered at),
            law.read_keeps (sector_of e position) whole d,
          )
        ]
      where
        got :
            (disk.transfer_in (sector_of e position) whole d).0 ≡ true
            → (at : ℕ) → at - to < whole * virtio_sector
            → (disk.transfer_in (sector_of e position) whole d).1 (at - to)
              ≡ bytes d (place e position + (at - to))
        got answered at small =
            law.reads (sector_of e position) whole d answered (at - to) (omega arith)
            ∙ ap (bytes d) (omega (arith, sector_of_lem e placed position (omega arith)))

    read_round-Read :
        (to left : ℕ) (memory : ℕ → ℕ) (d : D)
        → 0 < left
        → RoundRead e position to left memory d (read_round disk e position to left (memory, d))
    unfolding read_round
    read_round-Read to left memory d more =
        elim (Bool-cases (direct_sectors e position to left != 0)) [
          | inr buffered ↦ rw (buffered, read_round) (read_buffered-Read to left memory d more)
          | inl direct ↦
              rw (direct, read_round)
                (read_direct-Read (direct_sectors e position to left) to left memory d
                  (ground arith) (direct_sectors-le e position to left direct).0
                  (direct_sectors-le e position to left direct).1)
        ]

  abbrev pub ReadEnded : Entry → ℕ → ℕ → ℕ → ℕ → (ℕ → ℕ) → D → Count × ((ℕ → ℕ) × D) → Type 0
  ReadEnded e position to left done memory d (fs_error, (memory', d')) =
      Outside to left memory memory' × Same d d'
  ReadEnded e position to left done memory d (count c, (memory', d')) =
      (c ≡ done + available e position left)
      × Filled e position to (available e position left) d memory memory'
      × Same d d'

  module _ (e : Entry) (placed : IsPlaced e) (fits : e.size ≤ limit e) where
    read_on :
        (r : Count × ((ℕ → ℕ) × D)) (position to n left done : ℕ) (memory memory' : ℕ → ℕ)
        (d d' : D)
        → 0 < n
        → n ≤ min left (e.size - position)
        → Filled e position to n d memory memory'
        → Same d d'
        → ReadEnded e (position + n) (to + n) (left - n) (done + n) memory' d' r
        → ReadEnded e position to left done memory d r
    read_on (fs_error, (last, d'')) position to n left done memory memory' d d' some_read most
          filled same rest =
        (
          λ at outside. rest.0 at (ground arith) ∙ filled at ∙ ground arith,
          λ at. rest.1 at ∙ same at,
        )
    read_on (count c, (last, d'')) position to n left done memory memory' d d' some_read most filled
          same rest =
        (omega (arith, rest.0), λ at. rest.1 at ∙ joined at, λ at. rest.2 at ∙ same at)
      where
        joined :
            (at : ℕ)
            → copied
                (to + n)
                (available e (position + n) (left - n))
                (λ k. bytes d' (place e (position + n) + k))
                memory'
                at
              ≡ copied to
                  (available e position left)
                  (λ k. bytes d (place e position + k))
                  memory
                  at
        joined at = elim (Bool-cases (leb (to + n) at)) [
          | inl past ↦
              let p : place e (position + n) + (at - (to + n)) ≡ place e position + (at - to) =
                ground arith in
              ground
                (arith, filled at, same (place e (position + n) + (at - (to + n))), ap (bytes d) p)
          | inr before ↦ ground (arith, filled at)
        ]

    read_loop-Ended :
        (fuel left position base done : ℕ) (memory : ℕ → ℕ) (d : D)
        → left ≤ fuel
        → ReadEnded e position
            (base + done)
            left
            done
            memory
            d
            (read_loop disk fuel e position base (done + left) done (memory, d))
    unfolding read_loop
    read_loop-Ended zero left position base done memory d enough =
        (omega arith, λ at. ground arith, λ at. refl)
    read_loop-Ended (suc fuel) left position base done memory d enough =
        elim (Bool-cases (ltb done (done + left) && ltb position e.size)) [
          | inr over ↦
              rw (over, ReadEnded, read_loop) (ground arith, λ at. ground arith, λ at. refl)
          | inl going ↦
              let again : Onward = λ n memory' d' most.
                let ends : done + left ≡ done + n + (left - n) = omega arith in
                let base_is : base + done + n ≡ base + (done + n) = omega arith in
                rw (ends, base_is)
                  (read_loop-Ended fuel (left - n) (position + n) base (done + n) memory' d'
                    (omega (arith, most.0))) in
              rw (going, ReadEnded, read_loop)
                (next again _ (
                  read_round-Read e placed fits position (ground arith) (base + done)
                    (done + left - done) memory d (ground arith)))
        ]
      where
        Onward : Type 0
        Onward =
            (n : ℕ) (memory' : ℕ → ℕ) (d' : D)
            → (0 < n) × (n ≤ left)
            → ReadEnded e (position + n) (base + done + n) (left - n) (done + n) memory' d'
                (read_loop disk fuel e (position + n) base (done + left) (done + n) (memory', d'))

        next :
            Onward
            → (r : Transfer ((ℕ → ℕ) × D))
            → RoundRead e position (base + done) (done + left - done) memory d r
            → ReadEnded e position (base + done) left done memory d (elim r [
              | failed s' ↦ (fs_error, s')
              | moved n s' ↦ read_loop disk fuel e (position + n) base (done + left) (done + n) s'
            ])
        next rest (failed (memory', d')) keeps = (λ at outside. keeps.0 at (ground arith), keeps.1)
        next rest (moved n (memory', d')) w =
            read_on _ position (base + done) n left done memory memory' d d' w.0
              (omega (arith, w.1)) w.2 w.3 (rest n memory' d' (w.0, omega (arith, w.1)))

  -- What `fs_read` of `length` bytes to `to` makes of memory, for a file from its entry.
  abbrev pub ReadResult : ℕ → ℕ → ℕ → (ℕ → ℕ) → Entry → Fs D → Count × (ℕ → ℕ) × Fs D → Type 0
  ReadResult position to length memory e fs (fs_error, memory', fs') =
      Outside to length memory memory' × Same fs.driver fs'.driver
  ReadResult position to length memory e fs (count c, memory', fs') =
      (c ≡ available e position length)
      × Filled e position to (available e position length) fs.driver memory memory'
      × Same fs.driver fs'.driver

  read_result :
      (position to length : ℕ) (memory : ℕ → ℕ) (e : Entry) (fs : Fs D) (r : Count × ((ℕ → ℕ) × D))
      → ReadEnded e position to length 0 memory fs.driver r
      → ReadResult position to length memory e fs (r.0, r.1.0, record fs { driver = r.1.1 })
  read_result position to length memory e fs (fs_error, (memory', d)) ended = ended
  read_result position to length memory e fs (count c, (memory', d)) ended =
      (omega (arith, ended.0), ended.1, ended.2)

  -- On a disk that keeps its law, for a file whose extent lies behind the directory and below
  -- sector 2 ^ 23 and whose size its extent holds, what `fs_read` leaves is ReadResult: where it
  -- returns a count, that is the count of bytes up to the end of the file, those bytes of the
  -- disk are in memory at the destination whether a round went straight to memory or through the
  -- sector buffer, and no other byte of memory has changed.
  pub fs_read-Reads :
      (file position to length : ℕ) (memory : ℕ → ℕ) (fs : Fs D)
      → IsPlaced (get_or fs.directory file no_entry)
      → (get_or fs.directory file no_entry).size ≤ limit (get_or fs.directory file no_entry)
      → ReadResult position to length memory
          (get_or fs.directory file no_entry)
          fs
          (fs_read disk file position to length memory fs)
  unfolding fs_read
  fs_read-Reads file position to length memory fs placed fits =
      let e : Entry = get_or fs.directory file no_entry in
      let counted : 0 + length ≡ length = omega arith in
      let start : to + 0 ≡ to = omega arith in
      read_result position to length memory e fs _ (
        subst
          (λ total.
            ReadEnded e position to length 0 memory fs.driver
              (read_loop disk length e position to total 0 (memory, fs.driver)))
          counted
          (rw start at (
            read_loop-Ended e placed fits length length position to 0 memory fs.driver
              (omega arith))))
