-- ===== src/Os/Fs/Data/Writing.antt =====
-- What `fs_write` leaves on the disk.
use tiny_processors.Prelude.{
  ℕ, zero, suc, ◌+◌, ◌-◌, ◌*◌, ◌/◌, ◌%◌, ◌≤◌, ◌<◌, ◌≡◌, refl, sym, ◌∙◌, ap, subst, inl, inr, arith,
  true, false, ◌&&◌, leb, ltb, if◌then◌else◌, Bool-cases, get_or, set,
}
use tiny_processors.Os.Disk.{Disk, IsDisk, virtio_sector, in_sector}
use tiny_processors.Os.Fs.{Entry, Fs, no_entry}
use tiny_processors.Os.Fs.Data.Place.{
  IsPlaced, place, limit, copy_count_lem, limit_of_lem, sector_of_lem, written, grown, in_extent,
  step_count,
}
use tiny_processors.Os.Fs.Data.{
  Count, fs_error, count, Transfer, failed, moved, sector_of, limit_of, copy_count, copied,
  store_sector, write_round, write_loop, fs_write,
}

module _ {D : Type 0} (disk : Disk D) {bytes : D → ℕ → ℕ} (law : IsDisk disk bytes) where
  -- From byte `position` on, the file holds the first `n` bytes of `from`, and nothing else has changed.
  abbrev pub Wrote : Entry → ℕ → (ℕ → ℕ) → ℕ → D → D → Type 0
  Wrote e position from n d d' =
      (at : ℕ) → bytes d' at ≡ copied (place e position) n from (bytes d) at

  -- The sector holds the `n` bytes of `from` at `at`, and no other sector has changed.
  abbrev StoredAt : ℕ → ℕ → (ℕ → ℕ) → ℕ → D → Transfer D → Type 0
  StoredAt sector at from n d (failed d') =
      (a : ℕ) → in_sector sector a ≡ false → bytes d' a ≡ bytes d a
  StoredAt sector at from n d (moved m d') =
      (m ≡ n) × ((a : ℕ) → bytes d' a ≡ copied (virtio_sector * sector + at) n from (bytes d) a)

  store_sector-StoredAt :
      (sector at n : ℕ) (from got : ℕ → ℕ) (d : D)
      → at + n ≤ virtio_sector
      → ((k : ℕ) → k < virtio_sector → got k ≡ bytes d (virtio_sector * sector + k))
      → StoredAt sector at from n d (store_sector disk sector at n from got d)
  unfolding store_sector
  store_sector-StoredAt sector at n from got d fits same =
      elim (Bool-cases (disk.transfer_out sector (copied at n from got) d).0) [
        | inr refused ↦ rw refused (law.write_keeps sector (copied at n from got) d)
        | inl stored ↦ rw stored (
          refl,
          λ a. elim (Bool-cases (in_sector sector a)) [
            | inr outside ↦ law.write_keeps sector (copied at n from got) d a outside ∙ ground arith
            | inl here ↦ byte_of stored a here
          ],
        )
      ]
    where
      byte_of :
          (disk.transfer_out sector (copied at n from got) d).0 ≡ true
          → (a : ℕ) → in_sector sector a ≡ true
          → bytes (disk.transfer_out sector (copied at n from got) d).1 a
            ≡ copied (virtio_sector * sector + at) n from (bytes d) a
      byte_of stored a here =
          let k : ℕ = a - virtio_sector * sector in
          let e : a ≡ virtio_sector * sector + k = ground arith in
          let small : k < virtio_sector = ground arith in
          rw e (
            law.writes sector (copied at n from got) d stored k small
            ∙ ground (arith, same k small))

  abbrev pub RoundWrote : Entry → ℕ → (ℕ → ℕ) → ℕ → D → Transfer D → Type 0
  RoundWrote e position from left d (failed d') =
      (at : ℕ)
      → in_sector (e.first + position / virtio_sector) at ≡ false
      → bytes d' at ≡ bytes d at
  RoundWrote e position from left d (moved n d') =
      (n ≡ step_count position left (limit e - position)) × Wrote e position from n d d'

  after_store :
      (e : Entry) (position left sector n : ℕ) (from : ℕ → ℕ) (d d' : D) (r : Transfer D)
      → sector ≡ e.first + position / virtio_sector
      → n ≡ step_count position left (limit e - position)
      → ((at : ℕ) → bytes d' at ≡ bytes d at)
      → StoredAt sector (position % virtio_sector) from n d' r
      → RoundWrote e position from left d r
  after_store e position left sector n from d d' (failed d'') s c same stored =
      λ at outside. stored at (rw s outside) ∙ same at
  after_store e position left sector n from d d' (moved m d'') s c same stored =
      let p : virtio_sector * sector + position % virtio_sector ≡ place e position = omega arith in
      (stored.0 ∙ c, λ at. stored.1 at ∙ rw p (ground (arith, same at)))

  module _ (e : Entry) (placed : IsPlaced e) (position : ℕ) (inside : position < limit e) where
    write_round-Wrote :
        (from : ℕ → ℕ) (left : ℕ) (d : D)
        → RoundWrote e position from left d (write_round disk e position from left d)
    unfolding write_round
    write_round-Wrote from left d = elim (Bool-cases (disk.transfer_in sector 1 d).0) [
      | inr refused ↦ rw (refused, write_round) (λ at outside. law.read_keeps sector 1 d at)
      | inl answered ↦
          rw (answered, write_round)
            (after_store e position left sector n from d (disk.transfer_in sector 1 d).2 _
              (sector_of_lem e placed position inside)
              (rw (limit_of_lem e placed) (copy_count_lem start left (limit e - position)))
              (law.read_keeps sector 1 d)
              (store_sector-StoredAt sector (position % virtio_sector) n from
                (disk.transfer_in sector 1 d).1 _
                (omega (arith, copy_count_lem start left (limit_of e - position)))
                (λ k small.
                  law.reads sector 1 d answered k (omega arith)
                  ∙ sym (law.read_keeps sector 1 d (virtio_sector * sector + k)))))
    ]
      where
        sector : ℕ
        sector = sector_of e position

        start : ℕ
        start = virtio_sector - position % virtio_sector

        n : ℕ
        n = copy_count start left (limit_of e - position)

  Wrote-join :
      (e : Entry) (position n m : ℕ) (f g h : ℕ → ℕ) (d d' d'' : D)
      → ((k : ℕ) → g k ≡ f k)
      → ((k : ℕ) → h k ≡ f (n + k))
      → Wrote e position g n d d'
      → Wrote e (position + n) h m d' d''
      → Wrote e position f (n + m) d d''
  Wrote-join e position n m f g h d d' d'' same later first second at =
      let k : ℕ = at - place e (position + n) in
      let ahead : place e (position + n) ≤ at → n + k ≡ at - place e position = omega arith in
      second at ∙ (elim (Bool-cases (leb (place e (position + n)) at)) [
        | inl past ↦
            ground
              (arith, first at, later k, same (at - place e position), ap f (ahead (ground arith)))
        | inr before ↦ ground (arith, first at, same (at - place e position))
      ])

  abbrev pub Ended : Entry → ℕ → ℕ → (ℕ → ℕ) → ℕ → ℕ → D → Count × (ℕ × D) → Type 0
  Ended e position done f left size d (fs_error, (size', d')) =
      (at : ℕ) → in_extent e at ≡ false → bytes d' at ≡ bytes d at
  Ended e position done f left size d (count c, (size', d')) =
      (c ≡ done + written e position left)
      × Wrote e position f (written e position left) d d'
      × (size' ≡ grown e position left size)

  module _ (e : Entry) (placed : IsPlaced e) where
    unfinished :
        (r : Count × (ℕ × D)) (position done n left size : ℕ) (f g h : ℕ → ℕ) (d d' : D)
        → position < limit e
        → 0 < left
        → n ≡ step_count position left (limit e - position)
        → ((k : ℕ) → g k ≡ f k)
        → ((k : ℕ) → h k ≡ f (n + k))
        → Wrote e position g n d d'
        → Ended e
            (position + n)
            (done + n)
            h
            (left - n)
            (if ltb size (position + n) then position + n else size)
            d'
            r
        → Ended e position done f left size d r
    unfinished (fs_error, (size', d'')) position done n left size f g h d d' inside more moves same
          later first rest =
        λ at outside. rest at outside ∙ first at ∙ ground arith
    unfinished (count c, (size', d'')) position done n left size f g h d d' inside more moves same
          later first rest =
        let total : written e position left ≡ n + written e (position + n) (left - n) =
          omega arith in
        (
          omega (arith, rest.0),
          rw total (
              Wrote-join e position n (written e (position + n) (left - n)) f g h d d' d'' same
                later first rest.1),
          ground (arith, rest.2),
        )

    write_loop-Ended :
        (fuel left position done size : ℕ) (from f : ℕ → ℕ) (d : D)
        → left ≤ fuel
        → ((k : ℕ) → from (done + k) ≡ f k)
        → Ended e position done f left size d
            (write_loop disk fuel e position from (done + left) done (size, d))
    unfolding write_loop
    write_loop-Ended zero left position done size from f d enough same =
        (omega arith, λ at. ground arith, ground arith)
    write_loop-Ended (suc fuel) left position done size from f d enough same =
        elim (Bool-cases (ltb done (done + left) && ltb position (limit_of e))) [
          | inr over ↦ rw (over, Ended, write_loop) (finished over)
          | inl going ↦
              let again : Onward = λ n d' some_moved most.
                let ends : done + left ≡ done + n + (left - n) = omega arith in
                rw ends (
                  write_loop-Ended fuel (left - n) (position + n) (done + n)
                    (if ltb size (position + n) then position + n else size) from (λ k. f (n + k))
                    d' (omega arith)
                    (λ k.
                      let a : done + n + k ≡ done + (n + k) = omega arith in
                      ap from a ∙ same (n + k))) in
              rw (going, Ended, write_loop)
                (next again _ (inside going) (ground arith) (
                  write_round-Wrote e placed position (inside going) (λ k. from (done + k))
                    (done + left - done) d))
        ]
      where
        Onward : Type 0
        Onward =
            (n : ℕ) (d' : D)
            → 0 < n
            → n ≤ left
            → Ended e (position + n) (done + n) (λ k. f (n + k)) (left - n)
                (if ltb size (position + n) then position + n else size) d'
                (write_loop disk fuel e (position + n) from (done + left) (done + n)
                  (if ltb size (position + n) then position + n else size, d'))

        limit_is : limit_of e ≡ limit e
        limit_is = limit_of_lem e placed

        finished :
            (ltb done (done + left) && ltb position (limit_of e)) ≡ false
            → Ended e position done f left size d (count done, (size, d))
        finished over =
            (ground (arith, limit_is), λ at. ground (arith, limit_is), ground (arith, limit_is))

        inside : (ltb done (done + left) && ltb position (limit_of e)) ≡ true → position < limit e
        inside going = ground (arith, limit_is)

        next :
            Onward
            → (r : Transfer D) → position < limit e
            → 0 < left
            → RoundWrote e position (λ k. from (done + k)) (done + left - done) d r
            → Ended e position done f left size d (elim r [
              | failed d' ↦ (fs_error, (size, d'))
              | moved n d' ↦
                  write_loop disk fuel e
                    (position + n)
                    from
                    (done + left)
                    (done + n)
                    (if ltb size (position + n) then position + n else size, d')
            ])
        next rest (failed d') i more keeps = λ at outside. keeps at (ground arith)
        next rest (moved n d') i more w =
            let moves : n ≡ step_count position left (limit e - position) = omega (arith, w.0) in
            unfinished _ position done n left size f (λ k. from (done + k)) (λ k. f (n + k)) d d' i
              more moves same (λ k. refl) (w.1) (rest n d' (omega arith) (omega arith))

  -- What `fs_write` of `length` bytes of `from` makes of a file, from its entry.
  abbrev pub WriteResult : ℕ → ℕ → (ℕ → ℕ) → ℕ → Entry → Fs D → Count × Fs D → Type 0
  WriteResult file position from length e fs (fs_error, fs') =
      (at : ℕ) → in_extent e at ≡ false → bytes fs'.driver at ≡ bytes fs.driver at
  WriteResult file position from length e fs (count c, fs') =
      (c ≡ written e position length)
      × Wrote e position from (written e position length) fs.driver fs'.driver
      × (fs'.directory ≡ set fs.directory file (record e { size = grown e position length e.size }))

  result_of :
      (file position length : ℕ) (from : ℕ → ℕ) (e : Entry) (fs : Fs D) (r : Count × (ℕ × D))
      → Ended e position 0 from length e.size fs.driver r
      → WriteResult file position from length e fs (
        r.0,
        record fs { directory = set fs.directory file (record e { size = r.1.0 }); driver = r.1.1 },
      )
  result_of file position length from e fs (fs_error, (size, d)) ended = ended
  result_of file position length from e fs (count c, (size, d)) ended =
      (omega (arith, ended.0), ended.1, rw (ended.2))

  -- On a disk that keeps its law, for a file whose extent lies behind the directory and below
  -- sector 2 ^ 23: where `fs_write` fails, no byte of the disk outside the extent has changed;
  -- else it returns the count of the bytes that fit, the disk has those bytes of the source at
  -- the position and all its others as they were, and the entry of the file alone has changed, by
  -- the growth of its size.
  pub fs_write-Writes :
      (file position length : ℕ) (from : ℕ → ℕ) (fs : Fs D)
      → IsPlaced (get_or fs.directory file no_entry)
      → WriteResult file position from length
          (get_or fs.directory file no_entry)
          fs
          (fs_write disk file position from length fs)
  unfolding fs_write
  fs_write-Writes file position length from fs placed =
      let e : Entry = get_or fs.directory file no_entry in
      let counted : 0 + length ≡ length = omega arith in
      result_of file position length from e fs _ (
        subst
          (λ total.
            Ended e position 0 from length e.size fs.driver
              (write_loop disk length e position from total 0 (e.size, fs.driver)))
          counted
          (write_loop-Ended e placed length length position 0 e.size from from fs.driver
            (omega arith) (λ k. ap from (omega arith))))
