-- ===== src/Emulator/Virtio/Request/Bounds.antt =====
-- A store to the device stays within the disk.
use tiny_processors.Prelude.{
  ℕ, ◌%◌, ◌^◌, ◌≡◌, inl, inr, refl, ap, Bool, true, false, ◌==◌, if◌then◌else◌, Bool-cases,
}
use tiny_processors.Prelude.Bits.{has}
use tiny_processors.Emulator.Access.{
  Access, acc_ok, acc_fault, acc_misaligned, acc_page_fault, OnOk, OnOk-ok, OnOk-fault, on_ok,
}
use tiny_processors.Emulator.Virtio.{VirtioBlk, Dma, content}
use tiny_processors.Emulator.Virtio.Request
use tiny_processors.Emulator.Virtio.Request.Disk.{IsWithin, IsWithin-same, virtio_serve-IsWithin}

write_queue-content :
    (offset value : ℕ) (v : VirtioBlk)
    → OnOk (λ w. content w ≡ content v) (Request.write_queue offset value v)
unfolding Request.write_queue
write_queue-content offset value v = search on_ok depth 16

write_status-content :
    (value : ℕ) (v : VirtioBlk) → content (Request.write_status value v) ≡ content v
unfolding Request.write_status
write_status-content value v = elim (Bool-cases (value % 2 ^ 8 == 0)) [
  | inl reset ↦ rw (Request.write_status, reset) refl
  | inr other ↦ rw (Request.write_status, other) refl
]

if_selected-content :
    (v : VirtioBlk) (m : Access VirtioBlk)
    → OnOk (λ w. content w ≡ content v) m
    → OnOk (λ w. content w ≡ content v) (Request.if_selected v m)
unfolding Request.if_selected
if_selected-content v (acc_ok w) h = OnOk-ok _ (selected v.queue_sel_zero (h.at w refl))
  where
    selected : (b : Bool) → content w ≡ content v → content (if b then w else v) ≡ content v
    selected true e = e
    selected false e = refl
if_selected-content v acc_fault h = OnOk-fault
if_selected-content v acc_misaligned h = h
if_selected-content v acc_page_fault h = h

write_register-content :
    (offset value : ℕ) (v : VirtioBlk)
    → OnOk (λ w. content w ≡ content v) (Request.write_register offset value v)
unfolding Request.write_register
write_register-content offset value v =
    search
      (
        on_ok,
        acknowledged (has value 1),
        write_status-content value v,
        if_selected-content v (Request.write_queue offset value v)
            (write_queue-content offset value v),
      )
      depth 16
  where
    acknowledged :
        (b : Bool) → content (if b then record v { interrupt = false } else v) ≡ content v
    acknowledged true = refl
    acknowledged false = refl

stored-IsWithin :
    (s : Dma) (m : Access VirtioBlk)
    → OnOk (λ w. content w ≡ content s.blk) m
    → OnOk (λ (t : Dma). IsWithin s.blk t.blk) (Request.stored s m)
unfolding Request.stored
stored-IsWithin s (acc_ok v) h =
    let e = h.at v refl in OnOk-ok _ (IsWithin-same (ap (λ p. p.0) e) (ap (λ p. p.1) e))
stored-IsWithin s acc_fault h = OnOk-fault
stored-IsWithin s acc_misaligned h = record { at = λ t e. cc }
stored-IsWithin s acc_page_fault h = record { at = λ t e. cc }

store-IsWithin :
    (fuel offset width value : ℕ) (s : Dma)
    → OnOk (λ (t : Dma). IsWithin s.blk t.blk) (Request.virtio_store fuel offset width value s)
unfolding Request.virtio_store
store-IsWithin fuel offset width value s =
    search
      (
        on_ok,
        notified _,
        stored-IsWithin s (Request.write_register offset value s.blk)
            (write_register-content offset value s.blk),
      )
      depth 8
  where
    notified : (b : Bool) → IsWithin s.blk (if b then Request.virtio_serve fuel s else s).blk
    notified true = virtio_serve-IsWithin fuel s
    notified false = IsWithin-same refl refl

-- A store to the virtio device that succeeds, with every request that it serves for any number of
-- rounds, leaves the size of the disk, and every byte at or past that size as it was.
pub virtio_store-IsWithin :
    (fuel offset width value : ℕ) (s t : Dma)
    → Request.virtio_store fuel offset width value s ≡ acc_ok t
    → IsWithin s.blk t.blk
virtio_store-IsWithin fuel offset width value s t ran =
    (store-IsWithin fuel offset width value s).at t ran
