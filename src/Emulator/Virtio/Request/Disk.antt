-- ===== src/Emulator/Virtio/Request/Disk.antt =====
-- A request stays within the disk.
use tiny_processors.Prelude.{
  ℕ, zero, suc, ◌+◌, ◌-◌, ◌*◌, ◌/◌, ◌%◌, ◌^◌, ◌≤◌, ◌≡◌, inl, inr, refl, ap, ◌∙◌, arith, Bool, true,
  false, ltb, ◌==◌, if◌then◌else◌, Bool-cases, Option-cases,
}
use tiny_processors.Emulator.Memory.{bytes_read, bytes_write}
use tiny_processors.Emulator.Memory.Bytes.{bytes_write-byte}
use tiny_processors.Emulator.Virtio.{
  VirtioBlk, Dma, dma_read, dma_read16, dma_write, virtio_disk_written, dma_write-blk,
  disk_written-disk,
}
use tiny_processors.Emulator.Virtio.Request
use tiny_processors.Emulator.Virtio.Request.Keeps.{closed, write_all-blk}

-- The disk keeps its size, and what is stored past its end.
pub record IsWithin (v w : VirtioBlk) : Type 0 where
  pub size : w.disk_size ≡ v.disk_size
  pub past_end : (k : ℕ) → v.disk_size ≤ k → w.disk k ≡ v.disk k

pub IsWithin-same : {v w : VirtioBlk} → w.disk_size ≡ v.disk_size → w.disk ≡ v.disk → IsWithin v w
IsWithin-same e d = record { size = e; past_end = λ k h. ap (λ f. f k) d }

IsWithin-then : {u v w : VirtioBlk} → IsWithin u v → IsWithin v w → IsWithin u w
IsWithin-then {u} {v} {w} a b = record {
  size = b.size ∙ a.size;
  past_end = λ k h. let e = a.size in b.past_end k (omega arith) ∙ a.past_end k h;
}

word-IsWithin :
    (v : VirtioBlk) (at word : ℕ)
    → at + 4 ≤ v.disk_size
    → IsWithin v (record v { disk = bytes_write v.disk at 4 word })
word-IsWithin v at word h = record {
  size = refl;
  past_end = λ k past.
      let e : at + (k - at) ≡ k = omega arith in
      rw⁻¹ e (ground (arith, bytes_write-byte 4 v.disk at word (k - at)));
}

to_ram-IsWithin :
    (left i at address : ℕ) (s : Dma) → IsWithin s.blk (Request.to_ram left i at address s).1.blk
unfolding Request.to_ram
to_ram-IsWithin zero i at address s = IsWithin-same refl refl
to_ram-IsWithin (suc left) i at address s =
    elim (Option-cases
      (dma_write ((address + 4 * i) % 2 ^ 32) (bytes_read s.blk.disk (at + 4 * i) 4) 0xf s)) [
        | inl refused ↦ rw (Request.to_ram, refused) (IsWithin-same refl refl)
        | inr (s', wrote) ↦
            let e = dma_write-blk _ _ _ s s' wrote in
            rw (Request.to_ram, wrote)
              (IsWithin-then (IsWithin-same (ap (λ v. v.disk_size) e) (ap (λ v. v.disk) e))
                (to_ram-IsWithin left (i + 1) at address s'))
      ]

written-IsWithin : (v : VirtioBlk) → IsWithin v (virtio_disk_written v)
written-IsWithin v =
    IsWithin-same (ap (λ p. p.0) (disk_written-disk v)) (ap (λ p. p.1) (disk_written-disk v))

to_disk-IsWithin :
    (left i at address : ℕ) (s : Dma)
    → at + 4 * (i + left) ≤ s.blk.disk_size
    → IsWithin s.blk (Request.to_disk left i at address s).1.blk
unfolding Request.to_disk
to_disk-IsWithin zero i at address s h = IsWithin-same refl refl
to_disk-IsWithin (suc left) i at address s h =
    elim (Option-cases (dma_read ((address + 4 * i) % 2 ^ 32) s)) [
      | inl refused ↦ rw (Request.to_disk, refused) (written-IsWithin s.blk)
      | inr (word, read) ↦
          rw (Request.to_disk, read)
            (IsWithin-then (word-IsWithin s.blk (at + 4 * i) word (omega arith))
              (to_disk-IsWithin left (i + 1) at address _ (omega arith)))
    ]

closed-IsWithin :
    (v : VirtioBlk) (r : Bool × Dma) → IsWithin v r.1.blk → IsWithin v (closed r).1.blk
closed-IsWithin v (true, s) h = IsWithin-then h (written-IsWithin s.blk)
closed-IsWithin v (false, s) h = h

transfer-IsWithin :
    (c : Request.Chain) (s : Dma)
    → Request.is_io_error c s.blk ≡ false
    → IsWithin s.blk (Request.transfer c s).1.blk
unfolding Request.transfer Request.is_io_error
transfer-IsWithin c s fine = elim (Bool-cases (c.kind == 0)) [
  | inl reads ↦
      rw (Request.transfer, reads) (to_ram-IsWithin (c.length / 4) 0 (c.sector * 512) c.data_at s)
  | inr writes ↦
      rw (Request.transfer, writes)
        (closed-IsWithin s.blk (Request.to_disk (c.length / 4) 0 (c.sector * 512) c.data_at s)
          (to_disk-IsWithin (c.length / 4) 0 (c.sector * 512) c.data_at s inside))
]
  where
    inside : c.sector * 512 + 4 * (0 + c.length / 4) ≤ s.blk.disk_size
    inside = ground arith

perform-IsWithin : (c : Request.Chain) (s : Dma) → IsWithin s.blk (Request.perform c s).2.blk
unfolding Request.perform
perform-IsWithin c s = elim (Bool-cases (ltb 1 c.kind)) [
  | inl unsupported ↦ rw (Request.perform, unsupported) (IsWithin-same refl refl)
  | inr known ↦ elim (Bool-cases (Request.is_io_error c s.blk)) [
    | inl fails ↦ rw (Request.perform, known, fails) (IsWithin-same refl refl)
    | inr fine ↦ rw (Request.perform, known, fine) (transfer-IsWithin c s fine)
  ]
]

abbrev advanced : Bool × Dma → Bool × Dma
advanced r = if r.0 then (true, Request.with_blk (Request.advance r.1.blk) r.1) else (false, r.1)

advanced-IsWithin :
    (v : VirtioBlk) (r : Bool × Dma) → IsWithin v r.1.blk → IsWithin v (advanced r).1.blk
unfolding Request.advance
advanced-IsWithin v (true, s) h = record { size = h.size; past_end = h.past_end }
advanced-IsWithin v (false, s) h = h

conclude-IsWithin :
    (c : Request.Chain) (v : VirtioBlk) (r : Bool × ℕ × Dma)
    → IsWithin v r.2.blk
    → IsWithin v (Request.conclude c r).1.blk
unfolding Request.conclude
conclude-IsWithin c v (false, result, s) h = h
conclude-IsWithin c v (true, result, s) h =
    let writes = Request.completion c result s.blk in
    let e = write_all-blk writes s in
    advanced-IsWithin v (Request.write_all writes s)
      (IsWithin-then h (IsWithin-same (ap (λ w. w.disk_size) e) (ap (λ w. w.disk) e)))

request-IsWithin : (s : Dma) → IsWithin s.blk (Request.virtio_request s).1.blk
unfolding Request.virtio_request
request-IsWithin s = elim (Option-cases (Request.read_chain s)) [
  | inl refused ↦ rw (Request.virtio_request, refused) (IsWithin-same refl refl)
  | inr (c, read) ↦
      rw (Request.virtio_request, read)
        (conclude-IsWithin c s.blk (Request.perform c s) (perform-IsWithin c s))
]

reset-IsWithin :
    (v : VirtioBlk) (s : Dma) → IsWithin v s.blk → IsWithin v (Request.needs_reset s).blk
unfolding Request.needs_reset
reset-IsWithin v s h = record { size = h.size; past_end = h.past_end }

if-IsWithin :
    (v : VirtioBlk) (b : Bool) (s t : Dma)
    → IsWithin v s.blk
    → IsWithin v t.blk
    → IsWithin v (if b then s else t).blk
if-IsWithin v true s t f g = f
if-IsWithin v false s t f g = g

serve_loop-IsWithin : (fuel : ℕ) (s : Dma) → IsWithin s.blk (Request.serve_loop fuel s).blk
unfolding Request.serve_loop Request.still_serving
serve_loop-IsWithin zero s = IsWithin-same refl refl
serve_loop-IsWithin (suc fuel) s =
    elim (Option-cases (dma_read16 ((s.blk.driver_lo + 2) % 2 ^ 32) s)) [
      | inl refused ↦
          rw (Request.serve_loop, refused) (reset-IsWithin s.blk s (IsWithin-same refl refl))
      | inr (available, read) ↦
          let r = Request.virtio_request s in
          let after = request-IsWithin s in
          rw (Request.serve_loop, read)
            (if-IsWithin s.blk (available == s.blk.last_avail) s _ (IsWithin-same refl refl) (
              if-IsWithin s.blk r.0 _ _ (IsWithin-then after (serve_loop-IsWithin fuel r.1))
                (reset-IsWithin s.blk r.1 after)))
    ]

pub virtio_serve-IsWithin : (fuel : ℕ) (s : Dma) → IsWithin s.blk (Request.virtio_serve fuel s).blk
unfolding Request.virtio_serve
virtio_serve-IsWithin fuel s =
    if-IsWithin s.blk _ (Request.needs_reset s) (Request.serve_loop fuel s)
      (reset-IsWithin s.blk s (IsWithin-same refl refl)) (serve_loop-IsWithin fuel s)
