-- ===== src/Emulator/Bus.antt =====
-- The machine of tools/rv32emu_core.h and its memory map in tools/rv32emu_core.c: `REGIONS`,
-- `find_region`, the handlers of the windows, `load`, `store` and `amo`. The SIMD4, GPU and 3D engines,
-- the boot ROM and the display are a parameter, `Engines`.
pub mod Frame
pub mod Regions
mod Tests
use tiny_processors.Prelude.{
  ℕ, zero, suc, ◌+◌, ◌-◌, ◌/◌, ◌%◌, ◌^◌, Bool, true, false, not, ◌&&◌, ◌||◌, List, [], ◌∷◌, Option,
  none, some, leb, ◌==◌, ◌!=◌, if◌then◌else◌, bit_and,
}
use tiny_processors.Emulator.Access.{
  Access, acc_ok, acc_fault, acc_misaligned, acc_page_fault, ◌>>=◌,
}
use tiny_processors.Emulator.Amo.{amo_value}
use tiny_processors.Emulator.Clint.{clint_load, clint_store}
use tiny_processors.Emulator.Console.{Console, console_load, console_store}
use tiny_processors.Emulator.Csr.{Machine}
use tiny_processors.Emulator.Hart.{Hart, data_priv}
use tiny_processors.Emulator.Input.{Input, input_load}
use tiny_processors.Emulator.Memory.{bytes_read, bytes_write, ram_base, ram_size}
use tiny_processors.Emulator.Plic.{plic_load, plic_store}
use tiny_processors.Emulator.Pmp.{pmp_allows, pmp_r, pmp_w}
use tiny_processors.Emulator.Virtio.{VirtioBlk, Dma, virtio_load}
use tiny_processors.Emulator.Virtio.Request.{virtio_store}
use tiny_processors.Emulator.Sv32.{WalkKind, walk_load, walk_store, translate}

-- The windows, in the order of the table.
pub data Window : Type 0 where
  gpu dma_window g3d done console clint plic virtio bootrom input display palette framebuffer :
      Window
  simd4 simd4_program simd4_data ram : Window

abbrev pub window_base : Window → ℕ
window_base gpu = 0x1100_7000
window_base dma_window = 0x1100_a000
window_base g3d = 0x1100_8000
window_base done = 0x10_0000
window_base console = 0x1000_0000
window_base clint = 0x200_0000
window_base plic = 0xc00_0000
window_base virtio = 0x1000_1000
window_base bootrom = 0x1000
window_base input = 0x1100_1000
window_base display = 0x1100_2000
window_base palette = 0x1100_3000
window_base framebuffer = 0x1200_0000
window_base simd4 = 0x1100_4000
window_base simd4_program = 0x1100_5000
window_base simd4_data = 0x1100_6000
window_base ram = ram_base

abbrev pub window_size : Window → ℕ
window_size gpu = 128
window_size dma_window = 8
window_size g3d = 0x2000
window_size done = 4
window_size console = 8
window_size clint = 0x1_0000
window_size plic = 0x60_0000
window_size virtio = 0x200
window_size bootrom = 0x1000
window_size input = 16
window_size display = 16
window_size palette = 0x400
window_size framebuffer = 76800
window_size simd4 = 32
window_size simd4_program = 1024
window_size simd4_data = 1024
window_size ram = ram_size

abbrev pub regions : List Window
regions =
    gpu ∷ dma_window ∷ g3d ∷ done ∷ console ∷ clint ∷ plic ∷ virtio ∷ bootrom ∷ input ∷ display
    ∷ palette ∷ framebuffer ∷ simd4 ∷ simd4_program ∷ simd4_data ∷ ram ∷ []

-- `addr >= r->base && addr - r->base + (uint32_t)width <= r->size`
pub covers : ℕ → ℕ → Window → Bool
covers addr width w =
    leb (window_base w) addr && leb ((addr - window_base w + width) % 2 ^ 32) (window_size w)

pub find_in : List Window → ℕ → ℕ → Option Window
find_in [] addr width = none
find_in (w ∷ ws) addr width = if covers addr width w then some w else find_in ws addr width

pub find_region : ℕ → ℕ → Option Window
find_region addr width = find_in regions addr width

pub data Halt : Type 0 where
  running halt_done halt_double_fault halt_limit halt_stopped : Halt

-- What a store to an engine's window, or a tick, leaves: the addresses that it wrote by DMA among it.
pub record Served (D : Type 0) : Type 0 where
  pub devices : D
  pub ram : ℕ → ℕ
  pub input : Input
  pub written : List ℕ

-- The parts of the machine that are not modelled here, with the rounds that `virtio_serve` is given. A
-- handler that refuses an access has changed nothing.
pub record Engines (D : Type 0) : Type 0 where
  pub engine_load : Window → ℕ → ℕ → D → Access (ℕ × D)
  pub engine_store : Window → ℕ → ℕ → ℕ → D → (ℕ → ℕ) → Input → Access (Served D)
  pub engine_tick : D → (ℕ → ℕ) → Input → Served D
  pub ram_locked : D → ℕ → ℕ → Bool
  pub rounds : ℕ
  pub frames : D → ℕ

pub record Emu (D : Type 0) : Type 0 where
  pub machine : Machine
  pub console : Console
  pub input : Input
  pub ram : ℕ → ℕ
  pub disk : VirtioBlk
  pub devices : D
  pub halt : Halt
  pub done_word : ℕ
  pub second_cause : ℕ
  pub second_tval : ℕ
  pub traps : ℕ
  pub interrupts : ℕ

pub snoop_device_write : ℕ → Hart → Hart
snoop_device_write addr m =
    if m.reserved && addr / 2 ^ 2 == m.reservation_pa then record m { reserved = false } else m

pub snoop_all : List ℕ → Hart → Hart
snoop_all [] m = m
snoop_all (addr ∷ rest) m = snoop_all rest (snoop_device_write addr m)

module _ {D : Type 0} where
  abbrev pub with_machine : Machine → Emu D → Emu D
  with_machine m e = record e { machine = m }

  abbrev pub with_hart : Hart → Emu D → Emu D
  with_hart h e = record e { machine = record e.machine { hart = h } }

  -- What an engine has done, in the machine.
  pub serve : Served D → Emu D → Emu D
  serve s e = record (with_hart (snoop_all s.written e.machine.hart) e) {
    devices = s.devices;
    ram = s.ram;
    input = s.input;
  }

  -- What a store to the virtio device has done, in the machine.
  pub serve_dma : Dma → Emu D → Emu D
  serve_dma s e = record (with_hart (snoop_all s.written e.machine.hart) e) {
    disk = s.blk;
    ram = s.ram;
  }

  pub done_store : ℕ → ℕ → ℕ → Emu D → Access (Emu D)
  done_store offset width value e =
      if width == 4 && offset == 0
      then acc_ok (record e { halt = halt_done; done_word = value })
      else acc_fault

  -- A refusal ends an AMO, which leaves the machine as it was before the access.
  pub unless_stopped {ℓ} :
      {A : Type ℓ} → Access A → Emu D → (A → Access ℕ × Emu D) → Access ℕ × Emu D
  unless_stopped (acc_ok a) e next = next a
  unless_stopped acc_misaligned e next = (acc_misaligned, e)
  unless_stopped acc_page_fault e next = (acc_page_fault, e)
  unless_stopped acc_fault e next = (acc_fault, e)

  module _ (engines : Engines D) where
    -- The `load` handler of each window. All of them have one.
    pub region_load : Window → ℕ → ℕ → Emu D → Access (ℕ × Emu D)
    region_load ram offset width e = acc_ok (bytes_read e.ram offset width, e)
    region_load clint offset width e = do
      v ← clint_load e.machine.steps offset width e.machine.clint
      acc_ok (v, e)
    region_load plic offset width e = do
      (v, p) ← plic_load offset width e.machine.plic
      acc_ok (v, with_machine (record e.machine { plic = p }) e)
    region_load input offset width e = do
      (v, i) ← input_load offset width e.input
      acc_ok (v, record e { input = i })
    region_load console offset width e = do
      (v, c) ← console_load offset width e.console
      acc_ok (v, record e { console = c })
    region_load virtio offset width e = do v ← virtio_load offset width e.disk; acc_ok (v, e)
    region_load done offset width e = if width == 4 && offset == 0 then acc_ok (0, e) else acc_fault
    region_load w offset width e = do
      (v, d) ← engines.engine_load w offset width e.devices
      acc_ok (v, record e { devices = d })

    -- The `store` handlers. The boot ROM and the input device have none.
    pub region_store : Window → ℕ → ℕ → ℕ → Emu D → Access (Emu D)
    region_store ram offset width value e =
        if engines.ram_locked e.devices (ram_base + offset) width
        then acc_fault
        else acc_ok (record e { ram = bytes_write e.ram offset width value })
    region_store clint offset width value e = do
      c ← clint_store e.machine.steps offset width value e.machine.clint
      acc_ok (with_machine (record e.machine { clint = c }) e)
    region_store plic offset width value e = do
      p ← plic_store offset width value e.machine.plic
      acc_ok (with_machine (record e.machine { plic = p }) e)
    region_store console offset width value e = do
      c ← console_store offset width value e.console
      acc_ok (record e { console = c })
    region_store virtio offset width value e = do
      s ←
          virtio_store engines.rounds offset width value
            (record { blk = e.disk; ram = e.ram; written = [] })
      acc_ok (serve_dma s e)
    region_store done offset width value e = done_store offset width value e
    region_store bootrom offset width value e = acc_fault
    region_store input offset width value e = acc_fault
    region_store w offset width value e = do
      s ← engines.engine_store w offset width value e.devices e.ram e.input
      acc_ok (serve s e)

    -- The region that holds an access, or a fault.
    pub bus_load : ℕ → ℕ → Emu D → Access (ℕ × Emu D)
    bus_load addr width e = elim (find_region addr width) [
      | some w ↦ region_load w (addr - window_base w) width e
      | none ↦ acc_fault
    ]

    pub bus_store : ℕ → ℕ → ℕ → Emu D → Access (Emu D)
    bus_store addr width value e = elim (find_region addr width) [
      | some w ↦ region_store w (addr - window_base w) width value e
      | none ↦ acc_fault
    ]

    -- A physical address that translation and PMP give for an access.
    pub locate : WalkKind → ℕ → ℕ → ℕ → Emu D → Access ℕ
    locate kind need va width e =
        let h = e.machine.hart in
        if va % width != 0 then acc_misaligned else do
          addr ← translate e.ram h va kind (data_priv h)
          if pmp_allows (data_priv h) h.pmp addr need then acc_ok addr else acc_fault

    -- A load: its value, its physical address, and the machine after it.
    pub load : ℕ → ℕ → Emu D → Access (ℕ × ℕ × Emu D)
    load va width e = do
      addr ← locate walk_load pmp_r va width e
      (v, e') ← bus_load addr width e
      acc_ok (v, addr, e')

    pub store : ℕ → ℕ → ℕ → Emu D → Access (Emu D)
    store va width value e = do
      addr ← locate walk_store pmp_w va width e
      bus_store addr width value e

    -- The write of an AMO, after its read has returned `old`: a refused write leaves what the read did.
    -- `amo_value` has a value for each funct5 that `amo_valid` admits, and a fault stands for its `abort()`.
    pub amo_write : ℕ → ℕ → ℕ → ℕ → Emu D → Access ℕ × Emu D
    amo_write addr funct5 operand old e = elim (amo_value funct5 old operand) [
      | none ↦ (acc_fault, e)
      | some value ↦ unless_stopped (bus_store addr 4 value e) e (λ e'. (acc_ok old, e'))
    ]

    -- An AMO: the old value or the fault, and the machine after it.
    pub amo : ℕ → ℕ → ℕ → Emu D → Access ℕ × Emu D
    amo va funct5 operand e = unless_stopped (locate walk_store (pmp_r + pmp_w) va 4 e) e (λ addr.
        unless_stopped (bus_load addr 4 e) e (λ (old, e'). amo_write addr funct5 operand old e'))
