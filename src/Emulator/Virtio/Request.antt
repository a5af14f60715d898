-- ===== src/Emulator/Virtio/Request.antt =====
-- One request of the virtio disk, `virtio_request` of tools/rv32emu_core.c, the loop over the requests and the stores of
-- its registers. A request is a pair: whether it was served, and what it did.
pub mod Keeps
pub mod Registers
pub mod Disk
pub mod Bounds
mod Tests
use tiny_processors.Prelude.{
  ℕ, zero, suc, ◌+◌, ◌-◌, ◌*◌, ◌/◌, ◌%◌, ◌^◌, Bool, true, false, not, ◌&&◌, ◌||◌, List, [], ◌∷◌,
  Option, none, some, ltb, leb, ◌==◌, ◌!=◌, if◌then◌else◌, bit_and, bit_or, ◌>>=◌,
}
use tiny_processors.Prelude.Bits.{has}
use tiny_processors.Emulator.Access.{Access, acc_ok, acc_fault, acc_misaligned, acc_page_fault}
use tiny_processors.Emulator.Memory.{bytes_read, bytes_write}
use tiny_processors.Emulator.Virtio.{
  VirtioBlk, Dma, dma_read, dma_read16, dma_write, virtio_disk_written, virtio_needs_reset,
}

-- The words of a descriptor that the request uses.
pub record Descriptor : Type 0 where
  pub address : ℕ
  pub length : ℕ
  pub flags : ℕ

pub read_descriptor : ℕ → Dma → Option Descriptor
read_descriptor base s = do
  address ← dma_read base s
  high ← dma_read ((base + 4) % 2 ^ 32) s
  length ← if high != 0 then none else dma_read ((base + 8) % 2 ^ 32) s
  flags ← dma_read ((base + 12) % 2 ^ 32) s
  some (record { address = address; length = length; flags = flags })

-- Whether the descriptor at a place of the chain is refused.
pub refused : ℕ → ℕ → Descriptor → Bool
refused queue_num which d =
    let has_next = has d.flags 1 in
    let write = has d.flags 2 in
    (if has_next then which == 2 else which != 2)
    || which == 0 && write
    || which == 2 && not write
    || which != 2 && leb queue_num (d.flags / 2 ^ 16)

pub follow : ℕ → ℕ → Dma → Option Descriptor
follow which index s = do
  d ← read_descriptor ((s.blk.desc_lo + 16 * index) % 2 ^ 32) s
  if refused s.blk.queue_num which d then none else some d

-- What a chain asks for: the head, the addresses, the length and the direction, and the header's words.
pub record Chain : Type 0 where
  pub head : ℕ
  pub data_at : ℕ
  pub length : ℕ
  pub data_write : Bool
  pub status_at : ℕ
  pub kind : ℕ
  pub sector : ℕ
  pub sector_hi : ℕ

-- `queue_num - 1u`
pub mask : VirtioBlk → ℕ
mask v = (v.queue_num + 2 ^ 32 - 1) % 2 ^ 32

pub read_head : Dma → Option ℕ
read_head s = do
  head ← dma_read16 ((s.blk.driver_lo + 4 + 2 * bit_and s.blk.last_avail (mask s.blk)) % 2 ^ 32) s
  if leb s.blk.queue_num head then none else some head

pub read_chain : Dma → Option Chain
read_chain s = do
  head ← read_head s
  header ← follow 0 head s
  data_part ← follow 1 (header.flags / 2 ^ 16) s
  last ← follow 2 (data_part.flags / 2 ^ 16) s
  kind ← dma_read header.address s
  sector ← dma_read ((header.address + 8) % 2 ^ 32) s
  sector_hi ← dma_read ((header.address + 12) % 2 ^ 32) s
  some (record {
    head = head;
    data_at = data_part.address;
    length = data_part.length;
    data_write = has data_part.flags 2;
    status_at = last.address;
    kind = kind;
    sector = sector;
    sector_hi = sector_hi;
  })

-- The conditions of IOERR.
pub is_io_error : Chain → VirtioBlk → Bool
is_io_error c v =
    c.sector_hi != 0
    || leb (v.disk_size / 512) c.sector
    || has c.length 3
    || has c.data_at 3
    || ltb (v.disk_size / 4) (c.sector * 128 + c.length / 2 ^ 2)
    || (if c.data_write then c.kind != 0 else c.kind == 0)

abbrev pub with_blk : VirtioBlk → Dma → Dma
with_blk v s = record s { blk = v }

-- The loop over the words of an IN request at word `i`, with `left` to go, and that of an OUT request.
pub to_ram : ℕ → ℕ → ℕ → ℕ → Dma → Bool × Dma
to_ram zero i at address s = (true, s)
to_ram (suc left) i at address s =
    elim (dma_write ((address + 4 * i) % 2 ^ 32) (bytes_read s.blk.disk (at + 4 * i) 4) 0xf s) [
      | none ↦ (false, s)
      | some s' ↦ to_ram left (i + 1) at address s'
    ]

pub to_disk : ℕ → ℕ → ℕ → ℕ → Dma → Bool × Dma
to_disk zero i at address s = (true, s)
to_disk (suc left) i at address s = elim (dma_read ((address + 4 * i) % 2 ^ 32) s) [
  | none ↦ (false, with_blk (virtio_disk_written s.blk) s)
  | some word ↦
      to_disk left (i + 1) at address
        (with_blk (record s.blk { disk = bytes_write s.blk.disk (at + 4 * i) 4 word }) s)
]

pub transfer : Chain → Dma → Bool × Dma
transfer c s =
    if c.kind == 0
    then to_ram (c.length / 4) 0 (c.sector * 512) c.data_at s
    else (let (ok, s') = to_disk (c.length / 4) 0 (c.sector * 512) c.data_at s in
        if ok then (true, with_blk (virtio_disk_written s'.blk) s') else (false, s'))

-- The transfer, and the status byte of the request.
pub perform : Chain → Dma → Bool × ℕ × Dma
perform c s =
    if ltb 1 c.kind
    then (true, 2, s)
    else if is_io_error c s.blk
    then (true, 1, s)
    else (let (ok, s') = transfer c s in (ok, if s'.blk.write_error then 1 else 0, s'))

-- DMA writes in order, up to the first that fails.
pub write_all : List (ℕ × ℕ × ℕ) → Dma → Bool × Dma
write_all [] s = (true, s)
write_all ((addr, value, strobe) ∷ rest) s = elim (dma_write addr value strobe s) [
  | none ↦ (false, s)
  | some s' ↦ write_all rest s'
]

-- The status byte, the used element and the used index.
pub completion : Chain → ℕ → VirtioBlk → List (ℕ × ℕ × ℕ)
completion c result v =
    let used = (v.device_lo + 4 + 8 * bit_and v.used_idx (mask v)) % 2 ^ 32 in
    let written = if result == 0 && c.kind == 0 then (c.length + 1) % 2 ^ 32 else 1 in
    (c.status_at, result * 0x101_0101, 2 ^ bit_and c.status_at 3)
    ∷ (used, c.head, 0xf)
    ∷ ((used + 4) % 2 ^ 32, written, 0xf)
    ∷ (
      (v.device_lo + 2) % 2 ^ 32,
      (v.used_idx + 1) % 2 ^ 16 * 0x1_0001,
      if has v.device_lo 2 then 0x3 else 0xc,
    )
    ∷ []

pub advance : VirtioBlk → VirtioBlk
advance v = record v {
  used_idx = (v.used_idx + 1) % 2 ^ 16;
  last_avail = (v.last_avail + 1) % 2 ^ 16;
  interrupt = true;
}

pub conclude : Chain → Bool × ℕ × Dma → Bool × Dma
conclude c (false, result, s) = (false, s)
conclude c (true, result, s) =
    let (ok, s') = write_all (completion c result s.blk) s in
    if ok then (true, with_blk (advance s'.blk) s') else (false, s')

pub virtio_request : Dma → Bool × Dma
virtio_request s = elim (read_chain s) [ none ↦ (false, s) | some c ↦ conclude c (perform c s) ]

pub needs_reset : Dma → Dma
needs_reset s = with_blk (record s.blk { status = bit_or s.blk.status virtio_needs_reset }) s

-- The device is in the middle of `virtio_serve`: the call has not returned.
pub still_serving : Dma → Dma
still_serving s = with_blk (record s.blk { serving = true }) s

-- The `for (;;)` of `virtio_serve`. It has no bound, so a model that has used up its `fuel` rounds is left where it is,
-- and marked as still serving.
pub serve_loop : ℕ → Dma → Dma
serve_loop zero s = still_serving s
serve_loop (suc fuel) s = elim (dma_read16 ((s.blk.driver_lo + 2) % 2 ^ 32) s) [
  | none ↦ needs_reset s
  | some available ↦
      let (ok, s') = virtio_request s in
      let rest = serve_loop fuel s' in
      if available == s.blk.last_avail then s else if ok then rest else needs_reset s'
]

pub virtio_serve : ℕ → Dma → Dma
virtio_serve fuel s =
    let v = s.blk in
    if v.desc_hi != 0 || v.driver_hi != 0 || v.device_hi != 0 || v.queue_num == 0
    then needs_reset s
    else serve_loop fuel s

-- A write of the status register.
pub write_status : ℕ → VirtioBlk → VirtioBlk
write_status value v =
    if value % 2 ^ 8 == 0
    then record v {
      status = 0;
      queue_ready = false;
      queue_num = 0;
      last_avail = 0;
      used_idx = 0;
      interrupt = false;
      features_sel = false;
    }
    else record v { status = value % 2 ^ 8 }

-- The registers of queue 0, which is the one selected.
pub write_queue : ℕ → ℕ → VirtioBlk → Access VirtioBlk
write_queue offset value v =
    if offset == 0x038
    then acc_ok (record v {
      queue_num = if value == 1 || value == 2 || value == 4 || value == 8 then value else 0;
    })
    else if offset == 0x044
    then acc_ok (record v { queue_ready = has value 1 })
    else if offset == 0x080
    then acc_ok (record v { desc_lo = value })
    else if offset == 0x084
    then acc_ok (record v { desc_hi = value })
    else if offset == 0x090
    then acc_ok (record v { driver_lo = value })
    else if offset == 0x094
    then acc_ok (record v { driver_hi = value })
    else if offset == 0x0a0
    then acc_ok (record v { device_lo = value })
    else if offset == 0x0a4
    then acc_ok (record v { device_hi = value })
    else acc_fault

-- The registers of a queue that is not selected are not written.
pub if_selected : VirtioBlk → Access VirtioBlk → Access VirtioBlk
if_selected v (acc_ok v') = acc_ok (if v.queue_sel_zero then v' else v)
if_selected v acc_fault = acc_fault
if_selected v acc_misaligned = acc_misaligned
if_selected v acc_page_fault = acc_page_fault

pub write_register : ℕ → ℕ → VirtioBlk → Access VirtioBlk
write_register offset value v =
    if offset == 0x014
    then acc_ok (record v { features_sel = value == 1 })
    else if offset == 0x020 || offset == 0x024
    then acc_ok v
    else if offset == 0x030
    then acc_ok (record v { queue_sel_zero = value == 0 })
    else if offset == 0x064
    then acc_ok (if has value 1 then record v { interrupt = false } else v)
    else if offset == 0x070
    then acc_ok (write_status value v)
    else if_selected v (write_queue offset value v)

pub stored : Dma → Access VirtioBlk → Access Dma
stored s (acc_ok v) = acc_ok (with_blk v s)
stored s acc_fault = acc_fault
stored s acc_misaligned = acc_misaligned
stored s acc_page_fault = acc_page_fault

pub virtio_store : ℕ → ℕ → ℕ → ℕ → Dma → Access Dma
virtio_store fuel offset width value s =
    let v = s.blk in
    if width != 4
    then acc_fault
    else if offset == 0x050
    then acc_ok (
        if value == 0 && v.queue_ready && has v.status 4 && not (has v.status virtio_needs_reset)
        then virtio_serve fuel s
        else s)
    else stored s (write_register offset value v)
