-- ===== src/Emulator/Virtio.antt =====
-- The virtio disk of tools/rv32emu_core.c: `virtio_blk` of its header, the DMA of `dma_read` and `dma_write`,
-- `virtio_request`, `virtio_serve`, `virtio_load` and `virtio_store`.
pub mod Samples
pub mod Request
use tiny_processors.Prelude.{
  ℕ, zero, suc, ◌+◌, ◌-◌, ◌*◌, ◌/◌, ◌%◌, ◌^◌, ◌≡◌, refl, arith, Bool, true, false, not, ◌&&◌, ◌||◌,
  List, [], ◌∷◌, Option, none, some, ltb, leb, ◌==◌, ◌!=◌, if◌then◌else◌, bit_and, bit_or,
}
use tiny_processors.Prelude.Bits.{flip, has}
use tiny_processors.Emulator.Access.{Access, acc_ok, acc_fault}
use tiny_processors.Emulator.Memory.{bytes_read, put, ram_base, ram_size}

abbrev pub virtio_magic : ℕ
virtio_magic = 0x7472_6976

abbrev pub virtio_vendor : ℕ
virtio_vendor = 0x594e_4954

abbrev pub virtio_queue_max : ℕ
virtio_queue_max = 8

abbrev pub virtio_needs_reset : ℕ
virtio_needs_reset = 0x40

-- `failures` is what the host's file reports for each write to come: whether it fails. It is empty without a file.
-- `serving` is no field of the source's struct: a call of `virtio_serve` has used up its rounds and has not returned.
pub record VirtioBlk : Type 0 where
  pub status : ℕ
  pub features_sel : Bool
  pub queue_sel_zero : Bool
  pub queue_ready : Bool
  pub interrupt : Bool
  pub queue_num : ℕ
  pub desc_lo : ℕ
  pub desc_hi : ℕ
  pub driver_lo : ℕ
  pub driver_hi : ℕ
  pub device_lo : ℕ
  pub device_hi : ℕ
  pub last_avail : ℕ
  pub used_idx : ℕ
  pub disk : ℕ → ℕ
  pub disk_size : ℕ
  pub failures : List Bool
  pub write_error : Bool
  pub serving : Bool

-- The device with the RAM that it reads and writes; `written` are the addresses of its writes, which
-- `snoop_device_write` sees.
pub record Dma : Type 0 where
  pub blk : VirtioBlk
  pub ram : ℕ → ℕ
  pub written : List ℕ

pub dma_word : ℕ → Bool
dma_word addr = leb ram_base addr && ltb (addr - ram_base) ram_size

-- `(addr & ~3u) - RAM_BASE`
pub word_at : ℕ → ℕ
word_at addr = bit_and addr (flip 32 3) - ram_base

pub dma_read : ℕ → Dma → Option ℕ
dma_read addr s = if dma_word addr then some (bytes_read s.ram (word_at addr) 4) else none

pub dma_read16 : ℕ → Dma → Option ℕ
dma_read16 addr s = elim (dma_read addr s) [
  | none ↦ none
  | some word ↦ some (if has addr 2 then word / 2 ^ 16 else word % 2 ^ 16)
]

-- The loop over the strobed bytes at byte `i`, with `left` bytes to go.
pub strobe_loop : ℕ → (ℕ → ℕ) → ℕ → ℕ → ℕ → ℕ → (ℕ → ℕ)
strobe_loop zero ram at value strobe i = ram
strobe_loop (suc left) ram at value strobe i =
    strobe_loop left
      (if has strobe (2 ^ i) then put ram (at + i) (value / 2 ^ (8 * i) % 2 ^ 8) else ram) at value
      strobe (i + 1)

pub dma_write : ℕ → ℕ → ℕ → Dma → Option Dma
dma_write addr value strobe s =
    if dma_word addr
    then some (record s {
      ram = strobe_loop 4 s.ram (word_at addr) value strobe 0;
      written = addr ∷ s.written;
    })
    else none

-- What the host's file reports of a write.
pub report : List Bool → VirtioBlk → VirtioBlk
report [] v = v
report (fails ∷ rest) v = record v { failures = rest; write_error = v.write_error || fails }

pub virtio_disk_written : VirtioBlk → VirtioBlk
virtio_disk_written v = report v.failures v

pub virtio_load : ℕ → ℕ → VirtioBlk → Access ℕ
virtio_load offset width v =
    if width != 4
    then acc_fault
    else if offset == 0x000
    then acc_ok virtio_magic
    else if offset == 0x004 || offset == 0x008
    then acc_ok 2
    else if offset == 0x00c
    then acc_ok virtio_vendor
    else if offset == 0x010
    then acc_ok (if v.features_sel then 1 else 0)
    else if offset == 0x034
    then acc_ok (if v.queue_sel_zero then virtio_queue_max else 0)
    else if offset == 0x044
    then acc_ok (if v.queue_ready then 1 else 0)
    else if offset == 0x060
    then acc_ok (if v.interrupt then 1 else 0)
    else if offset == 0x070
    then acc_ok v.status
    else if offset == 0x080
    then acc_ok v.desc_lo
    else if offset == 0x084
    then acc_ok v.desc_hi
    else if offset == 0x090
    then acc_ok v.driver_lo
    else if offset == 0x094
    then acc_ok v.driver_hi
    else if offset == 0x0a0
    then acc_ok v.device_lo
    else if offset == 0x0a4
    then acc_ok v.device_hi
    else if offset == 0x0fc || offset == 0x104
    then acc_ok 0
    else if offset == 0x100
    then acc_ok (v.disk_size / 512)
    else acc_fault

-- The registers of the device, without its disk and the host's file.
abbrev pub registers : VirtioBlk → VirtioBlk
registers v = record v { disk = λ k. 0; disk_size = 0; failures = []; write_error = false }

pub dma_write-blk :
    (addr value strobe : ℕ) (s s' : Dma) → dma_write addr value strobe s ≡ some s' → s'.blk ≡ s.blk
unfolding dma_write
dma_write-blk addr value strobe s s' wrote = ground arith

report-registers :
    (failures : List Bool) (v : VirtioBlk) → registers (report failures v) ≡ registers v
unfolding report
report-registers [] v = refl
report-registers (fails ∷ rest) v = refl

pub disk_written-registers : (v : VirtioBlk) → registers (virtio_disk_written v) ≡ registers v
unfolding virtio_disk_written
disk_written-registers v = report-registers v.failures v

abbrev pub content : VirtioBlk → ℕ × (ℕ → ℕ)
content v = (v.disk_size, v.disk)

report-disk : (failures : List Bool) (v : VirtioBlk) → content (report failures v) ≡ content v
unfolding report
report-disk [] v = refl
report-disk (fails ∷ rest) v = refl

pub disk_written-disk : (v : VirtioBlk) → content (virtio_disk_written v) ≡ content v
unfolding virtio_disk_written
disk_written-disk v = report-disk v.failures v
