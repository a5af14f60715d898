-- ===== src/Emulator/Hart.antt =====
-- The state of the hart in `machine` of tools/rv32emu_core.h, trap entry (`enter_handler`) and the
-- returns from traps (MRET and SRET in `step`).
mod Tests
pub mod Samples
pub mod Status
pub mod Traps
pub mod Legal
pub mod Gates
pub mod Entry
use tiny_processors.Prelude.{
  ℕ, ◌+◌, ◌-◌, ◌*◌, ◌/◌, ◌%◌, ◌^◌, Bool, true, false, not, ◌&&◌, ◌||◌, List, ◌==◌, ◌!=◌,
  if◌then◌else◌, bit_and, bit_or,
}
use tiny_processors.Prelude.Bits.{flip, has}
use tiny_processors.Emulator.Pmp.{Pmp, priv_u, priv_s, priv_m}

abbrev pub mstatus_sie : ℕ
mstatus_sie = 0x2

abbrev pub mstatus_mie : ℕ
mstatus_mie = 0x8

abbrev pub mstatus_spie : ℕ
mstatus_spie = 0x20

abbrev pub mstatus_mpie : ℕ
mstatus_mpie = 0x80

abbrev pub mstatus_spp : ℕ
mstatus_spp = 0x100

abbrev pub mstatus_fs : ℕ
mstatus_fs = 0x6000

abbrev pub mstatus_mprv : ℕ
mstatus_mprv = 0x2_0000

abbrev pub mstatus_sum : ℕ
mstatus_sum = 0x4_0000

abbrev pub mstatus_mxr : ℕ
mstatus_mxr = 0x8_0000

abbrev pub mstatus_tvm : ℕ
mstatus_tvm = 0x10_0000

abbrev pub mstatus_tw : ℕ
mstatus_tw = 0x20_0000

abbrev pub mstatus_tsr : ℕ
mstatus_tsr = 0x40_0000

abbrev pub interrupt : ℕ
interrupt = 0x8000_0000

-- MIE_MASK: the machine's and the supervisor's software, timer and external interrupts.
abbrev pub mie_mask : ℕ
mie_mask = 0xaaa

pub record Hart : Type 0 where
  pub x : List ℕ
  pub f : List ℕ
  pub fcsr : ℕ
  pub pc : ℕ
  pub mtvec : ℕ
  pub mepc : ℕ
  pub mcause : ℕ
  pub mtval : ℕ
  pub mstatus : ℕ
  pub mie : ℕ
  pub mscratch : ℕ
  pub priv : ℕ
  pub mpp : ℕ
  pub medeleg : ℕ
  pub mideleg : ℕ
  pub mip_soft : ℕ
  pub stvec : ℕ
  pub sscratch : ℕ
  pub sepc : ℕ
  pub scause : ℕ
  pub stval : ℕ
  pub satp : ℕ
  pub scounteren : ℕ
  pub mcounteren : ℕ
  pub pmp : Pmp
  pub in_trap : Bool
  pub reserved : Bool
  pub reservation : ℕ
  pub reservation_pa : ℕ
  pub wr_fcsr : Bool

-- The hart without the reservation of LR.
abbrev pub unreserved : Hart → Hart
unreserved h = record h { reserved = false; reservation = 0; reservation_pa = 0 }

-- Whether medeleg or mideleg sends the trap to supervisor mode: never from machine mode.
pub delegated : ℕ → Hart → Bool
delegated cause m =
    let word = if has cause interrupt then m.mideleg else m.medeleg in
    m.priv != priv_m && has (word / 2 ^ bit_and cause 31) 1

-- mstatus on entry to supervisor and to machine mode.
pub status_to_s : ℕ → ℕ → ℕ
status_to_s priv mstatus =
    bit_or
      (bit_or (bit_and mstatus (flip 32 0x122))
        (if has mstatus mstatus_sie then mstatus_spie else 0))
      (if priv == priv_s then mstatus_spp else 0)

pub status_to_m : ℕ → ℕ
status_to_m mstatus =
    bit_or (bit_and mstatus (flip 32 0x88)) (if has mstatus mstatus_mie then mstatus_mpie else 0)

pub enter_handler : ℕ → ℕ → Hart → Hart
enter_handler cause tval m =
    if delegated cause m
    then record m {
      reserved = false;
      sepc = m.pc;
      scause = cause;
      stval = tval;
      mstatus = status_to_s m.priv m.mstatus;
      priv = priv_s;
      pc = m.stvec;
    }
    else record m {
      reserved = false;
      mepc = m.pc;
      mcause = cause;
      mtval = tval;
      mstatus = status_to_m m.mstatus;
      mpp = m.priv;
      priv = priv_m;
      pc = m.mtvec;
    }

-- mstatus after MRET, before MPRV is cleared, and after SRET.
pub status_after_mret : ℕ → ℕ
status_after_mret mstatus =
    bit_or (bit_or (bit_and mstatus (flip 32 mstatus_mie)) mstatus_mpie)
      (if has mstatus mstatus_mpie then mstatus_mie else 0)

pub status_after_sret : ℕ → ℕ
status_after_sret mstatus =
    bit_or (bit_or (bit_and mstatus (flip 32 0x2_0102)) mstatus_spie)
      (if has mstatus mstatus_spie then mstatus_sie else 0)

-- MRET in machine mode. `step` continues at mepc.
pub mret : Hart → Hart
mret m =
    let status = status_after_mret m.mstatus in
    record m {
      mstatus = if m.mpp != priv_m then bit_and status (flip 32 mstatus_mprv) else status;
      reserved = false;
      priv = m.mpp;
      mpp = priv_u;
      pc = m.mepc;
    }

-- SRET where it is legal. `step` continues at sepc.
pub sret : Hart → Hart
sret m = record m {
  priv = if has m.mstatus mstatus_spp then priv_s else priv_u;
  reserved = false;
  mstatus = status_after_sret m.mstatus;
  pc = m.sepc;
}

-- Machine mode, or supervisor mode unless `trap_bit` of mstatus says to trap.
pub supervisor_allows : ℕ → Hart → Bool
supervisor_allows trap_bit m = m.priv == priv_m || m.priv == priv_s && not (has m.mstatus trap_bit)

-- MPRV in machine mode runs loads and stores at MPP's privilege.
pub data_priv : Hart → ℕ
data_priv m = if m.priv == priv_m && has m.mstatus mstatus_mprv then m.mpp else m.priv

-- The reads of mstatus: MPP, and SD where FS is Dirty.
unfoldable pub mstatus_value : Hart → ℕ
mstatus_value m =
    let value = bit_or m.mstatus (m.mpp * 2 ^ 11 % 2 ^ 32) in
    if bit_and value mstatus_fs == mstatus_fs then bit_or value 0x8000_0000 else value

pub fs_off : Hart → Bool
fs_off m = bit_and m.mstatus mstatus_fs == 0
