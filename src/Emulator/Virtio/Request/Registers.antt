-- ===== src/Emulator/Virtio/Request/Registers.antt =====
-- What every store to the registers of the device keeps.
use tiny_processors.Prelude.{
  ℕ, zero, suc, ◌+◌, ◌%◌, ◌^◌, ◌<◌, ◌≡◌, inl, inr, refl, ap, arith, Bool, true, false, not, ◌&&◌,
  ◌||◌, ◌==◌, if◌then◌else◌, Option-cases,
}
use tiny_processors.Prelude.Bits.{has, bit_or-lt}
use tiny_processors.Emulator.Access.{
  Access, acc_ok, acc_fault, acc_misaligned, acc_page_fault, OnOk, on_ok, OnOk-ok, OnOk-fault,
}
use tiny_processors.Emulator.Virtio.{VirtioBlk, Dma, dma_read16, registers, virtio_needs_reset}
use tiny_processors.Emulator.Virtio.Request
use tiny_processors.Emulator.Virtio.Request.Keeps.{Moves, virtio_request-Moves}

-- The two indices of the queue are in step, in 16 bits; the queue has 0, 1, 2, 4 or 8 entries; the status is a byte.
pub record IsValid (v : VirtioBlk) : Type 0 where
  pub in_step : v.used_idx ≡ v.last_avail
  pub index_lt : v.used_idx < 2 ^ 16
  pub entries :
      (v.queue_num == 0
        || v.queue_num == 1
        || v.queue_num == 2
        || v.queue_num == 4
        || v.queue_num == 8)
      ≡ true
  pub status_lt : v.status < 2 ^ 8

same-IsValid : {v w : VirtioBlk} → registers w ≡ registers v → IsValid v → IsValid w
same-IsValid {v} {w} e valid =
    let used : w.used_idx ≡ v.used_idx = ap (λ r. r.used_idx) e in
    let last : w.last_avail ≡ v.last_avail = ap (λ r. r.last_avail) e in
    let num : w.queue_num ≡ v.queue_num = ap (λ r. r.queue_num) e in
    let status : w.status ≡ v.status = ap (λ r. r.status) e in ground arith

advance-IsValid : (v : VirtioBlk) → IsValid v → IsValid (Request.advance v)
unfolding Request.advance
advance-IsValid v valid = ground arith

Moves-IsValid : (v : VirtioBlk) (r : Bool × Dma) → Moves v r → IsValid v → IsValid r.1.blk
unfolding Request.advance
Moves-IsValid v (true, s) moves valid = same-IsValid moves (advance-IsValid v valid)
Moves-IsValid v (false, s) moves valid = same-IsValid moves valid

needs_reset-IsValid : (s : Dma) → IsValid s.blk → IsValid (Request.needs_reset s).blk
unfolding Request.needs_reset
needs_reset-IsValid s valid =
    ground (arith, bit_or-lt 8 s.blk.status virtio_needs_reset valid.status_lt (omega arith))

if-IsValid :
    (b : Bool) (s t : Dma) → IsValid s.blk → IsValid t.blk → IsValid (if b then s else t).blk
if-IsValid true s t f g = f
if-IsValid false s t f g = g

serve_loop-IsValid : (fuel : ℕ) (s : Dma) → IsValid s.blk → IsValid (Request.serve_loop fuel s).blk
unfolding Request.serve_loop Request.still_serving
serve_loop-IsValid zero s valid = record {
  in_step = valid.in_step;
  index_lt = valid.index_lt;
  entries = valid.entries;
  status_lt = valid.status_lt;
}
serve_loop-IsValid (suc fuel) s valid =
    elim (Option-cases (dma_read16 ((s.blk.driver_lo + 2) % 2 ^ 32) s)) [
      | inl refused ↦ rw (Request.serve_loop, refused) (needs_reset-IsValid s valid)
      | inr (available, read) ↦
          let r = Request.virtio_request s in
          let after = Moves-IsValid s.blk r (virtio_request-Moves s) valid in
          rw (Request.serve_loop, read)
            (if-IsValid (available == s.blk.last_avail) s _ valid (
              if-IsValid r.0 _ _ (serve_loop-IsValid fuel r.1 after)
                (needs_reset-IsValid r.1 after)))
    ]

virtio_serve-IsValid :
    (fuel : ℕ) (s : Dma) → IsValid s.blk → IsValid (Request.virtio_serve fuel s).blk
unfolding Request.virtio_serve
virtio_serve-IsValid fuel s valid =
    if-IsValid _ (Request.needs_reset s) (Request.serve_loop fuel s) (needs_reset-IsValid s valid)
      (serve_loop-IsValid fuel s valid)

write_status-IsValid :
    (value : ℕ) (v : VirtioBlk) → IsValid v → IsValid (Request.write_status value v)
unfolding Request.write_status
write_status-IsValid value v valid = ground arith

write_queue-IsValid :
    (offset value : ℕ) (v : VirtioBlk)
    → IsValid v
    → OnOk IsValid (Request.write_queue offset value v)
unfolding Request.write_queue
write_queue-IsValid offset value v valid = search (on_ok, sized) depth 16
  where
    sized : IsValid (record v {
      queue_num = if value == 1 || value == 2 || value == 4 || value == 8 then value else 0;
    })
    sized = ground arith

if_selected-IsValid :
    (v : VirtioBlk) (m : Access VirtioBlk)
    → IsValid v
    → OnOk IsValid m
    → OnOk IsValid (Request.if_selected v m)
unfolding Request.if_selected
if_selected-IsValid v (acc_ok w) valid h = OnOk-ok _ (selected v.queue_sel_zero (h.at w refl))
  where
    selected : {w : VirtioBlk} (b : Bool) → IsValid w → IsValid (if b then w else v)
    selected true f = f
    selected false f = valid
if_selected-IsValid v acc_fault valid h = OnOk-fault
if_selected-IsValid v acc_misaligned valid h = h
if_selected-IsValid v acc_page_fault valid h = h

write_register-IsValid :
    (offset value : ℕ) (v : VirtioBlk)
    → IsValid v
    → OnOk IsValid (Request.write_register offset value v)
unfolding Request.write_register
write_register-IsValid offset value v valid =
    search
      (
        on_ok,
        valid,
        acknowledged,
        write_status-IsValid value v valid,
        if_selected-IsValid v (Request.write_queue offset value v) valid
            (write_queue-IsValid offset value v valid),
      )
      depth 16
  where
    acknowledged : IsValid (if has value 1 then record v { interrupt = false } else v)
    acknowledged = ground arith

stored-IsValid :
    (s : Dma) (m : Access VirtioBlk)
    → OnOk IsValid m
    → OnOk (λ (t : Dma). IsValid t.blk) (Request.stored s m)
unfolding Request.stored
stored-IsValid s (acc_ok v) h = OnOk-ok _ (h.at v refl)
stored-IsValid s acc_fault h = OnOk-fault
stored-IsValid s acc_misaligned h = record { at = λ t e. cc }
stored-IsValid s acc_page_fault h = record { at = λ t e. cc }

store-IsValid :
    (fuel offset width value : ℕ) (s : Dma)
    → IsValid s.blk
    → OnOk (λ (t : Dma). IsValid t.blk) (Request.virtio_store fuel offset width value s)
unfolding Request.virtio_store
store-IsValid fuel offset width value s valid =
    search
      (
        on_ok,
        notified,
        stored-IsValid s (Request.write_register offset value s.blk)
            (write_register-IsValid offset value s.blk valid),
      )
      depth 8
  where
    notified :
        IsValid
          (if value == 0
              && s.blk.queue_ready
              && has s.blk.status 4
              && not (has s.blk.status virtio_needs_reset)
            then Request.virtio_serve fuel s
            else s).blk
    notified =
        if-IsValid _ (Request.virtio_serve fuel s) s (virtio_serve-IsValid fuel s valid) valid

-- A store to the virtio device that succeeds, with every request that it serves for any number of
-- rounds, keeps a valid device valid: the used index equals the index of the last available
-- request and is below 2 ^ 16, the queue has 0, 1, 2, 4 or 8 entries, and the status is a byte.
pub virtio_store-IsValid :
    (fuel offset width value : ℕ) (s t : Dma)
    → IsValid s.blk
    → Request.virtio_store fuel offset width value s ≡ acc_ok t
    → IsValid t.blk
virtio_store-IsValid fuel offset width value s t valid ran =
    (store-IsValid fuel offset width value s valid).at t ran
