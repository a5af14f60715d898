-- ===== src/Emulator/Virtio/Request/Keeps.antt =====
-- What a request does to the registers of the device, and what every access keeps of them.
use tiny_processors.Prelude.{
  ℕ, zero, suc, ◌+◌, ◌*◌, ◌/◌, ◌%◌, ◌^◌, ◌≡◌, inl, inr, refl, ap, ◌∙◌, Bool, true, false, List, [],
  ◌∷◌, ltb, ◌==◌, if◌then◌else◌, Bool-cases, Option-cases,
}
use tiny_processors.Emulator.Memory.{bytes_read}
use tiny_processors.Emulator.Virtio.{
  VirtioBlk, Dma, dma_read, dma_write, virtio_disk_written, dma_write-blk, disk_written-registers,
  registers,
}
use tiny_processors.Emulator.Virtio.Request

to_ram-registers :
    (left i at address : ℕ) (s : Dma)
    → registers (Request.to_ram left i at address s).1.blk ≡ registers s.blk
unfolding Request.to_ram
to_ram-registers zero i at address s = refl
to_ram-registers (suc left) i at address s =
    elim (Option-cases
      (dma_write ((address + 4 * i) % 2 ^ 32) (bytes_read s.blk.disk (at + 4 * i) 4) 0xf s)) [
        | inl refused ↦ rw (Request.to_ram, refused) refl
        | inr (s', wrote) ↦
            rw (Request.to_ram, wrote)
              (to_ram-registers left (i + 1) at address s'
                ∙ ap registers (dma_write-blk _ _ _ s s' wrote))
      ]

to_disk-registers :
    (left i at address : ℕ) (s : Dma)
    → registers (Request.to_disk left i at address s).1.blk ≡ registers s.blk
unfolding Request.to_disk
to_disk-registers zero i at address s = refl
to_disk-registers (suc left) i at address s =
    elim (Option-cases (dma_read ((address + 4 * i) % 2 ^ 32) s)) [
      | inl refused ↦ rw (Request.to_disk, refused) (disk_written-registers s.blk)
      | inr (word, read) ↦ rw (Request.to_disk, read) (to_disk-registers left (i + 1) at address _)
    ]

abbrev pub closed : Bool × Dma → Bool × Dma
closed r = if r.0 then (true, Request.with_blk (virtio_disk_written r.1.blk) r.1) else (false, r.1)

closed-registers : (r : Bool × Dma) → registers (closed r).1.blk ≡ registers r.1.blk
closed-registers (true, s) = disk_written-registers s.blk
closed-registers (false, s) = refl

transfer-registers :
    (c : Request.Chain) (s : Dma) → registers (Request.transfer c s).1.blk ≡ registers s.blk
unfolding Request.transfer
transfer-registers c s = elim (Bool-cases (c.kind == 0)) [
  | inl reads ↦
      rw (Request.transfer, reads) (to_ram-registers (c.length / 4) 0 (c.sector * 512) c.data_at s)
  | inr writes ↦
      rw (Request.transfer, writes)
        (closed-registers (Request.to_disk (c.length / 4) 0 (c.sector * 512) c.data_at s)
          ∙ to_disk-registers (c.length / 4) 0 (c.sector * 512) c.data_at s)
]

perform-registers :
    (c : Request.Chain) (s : Dma) → registers (Request.perform c s).2.blk ≡ registers s.blk
unfolding Request.perform
perform-registers c s = elim (Bool-cases (ltb 1 c.kind)) [
  | inl unsupported ↦ rw (Request.perform, unsupported) refl
  | inr known ↦ elim (Bool-cases (Request.is_io_error c s.blk)) [
    | inl fails ↦ rw (Request.perform, known, fails) refl
    | inr fine ↦ rw (Request.perform, known, fine) (transfer-registers c s)
  ]
]

pub write_all-blk : (l : List (ℕ × ℕ × ℕ)) (s : Dma) → (Request.write_all l s).1.blk ≡ s.blk
unfolding Request.write_all
write_all-blk [] s = refl
write_all-blk ((addr, value, strobe) ∷ rest) s =
    elim (Option-cases (dma_write addr value strobe s)) [
      | inl refused ↦ rw (Request.write_all, refused) refl
      | inr (s', wrote) ↦
          rw (Request.write_all, wrote)
            (write_all-blk rest s' ∙ dma_write-blk addr value strobe s s' wrote)
    ]

-- The registers after a request: those before it, or, if it was served, with both indices one further, modulo
-- 2 ^ 16, and the interrupt raised.
abbrev pub Moves : VirtioBlk → Bool × Dma → Type 0
Moves v r = registers r.1.blk ≡ (
    if r.0
    then record (registers v) {
      used_idx = (v.used_idx + 1) % 65536;
      last_avail = (v.last_avail + 1) % 65536;
      interrupt = true;
    }
    else registers v)

written-Moves :
    (v : VirtioBlk) (r : Bool × Dma)
    → registers r.1.blk ≡ registers v
    → Moves v (if r.0 then (true, Request.with_blk (Request.advance r.1.blk) r.1) else (false, r.1))
unfolding Request.advance
written-Moves v (true, s) same = ap (λ w. registers (Request.advance w)) same
written-Moves v (false, s) same = same

conclude-Moves :
    (c : Request.Chain) (v : VirtioBlk) (r : Bool × ℕ × Dma)
    → registers r.2.blk ≡ registers v
    → Moves v (Request.conclude c r)
unfolding Request.conclude
conclude-Moves c v (false, result, s) same = same
conclude-Moves c v (true, result, s) same =
    let writes = Request.completion c result s.blk in
    written-Moves v (Request.write_all writes s) (ap registers (write_all-blk writes s) ∙ same)

-- A virtio request that is not served leaves every register of the device as it was, wherever it
-- failed; one that is served advances both indices by one modulo 2 ^ 16, raises the interrupt,
-- and leaves the other registers.
pub virtio_request-Moves : (s : Dma) → Moves s.blk (Request.virtio_request s)
unfolding Request.virtio_request
virtio_request-Moves s = elim (Option-cases (Request.read_chain s)) [
  | inl refused ↦ rw (Request.virtio_request, refused) refl
  | inr (c, read) ↦
      rw (Request.virtio_request, read)
        (conclude-Moves c s.blk (Request.perform c s) (perform-registers c s))
]
