-- ===== src/Emulator/Csr.antt =====
-- The CSRs of tools/rv32emu_core.c: the numbers of `enum csr`, `csr_read`, and the part of the machine
-- that it reads. The writes are in Csr/Write.
pub mod Write
pub mod Untouched
pub mod Isolation
pub mod Legal
mod Tests
use tiny_processors.Prelude.{
  ℕ, zero, suc, ◌+◌, ◌*◌, ◌/◌, ◌%◌, ◌^◌, Bool, true, false, not, ◌&&◌, ◌||◌, List, [], ◌∷◌, Option,
  none, some, ltb, leb, ◌==◌, ◌!=◌, if◌then◌else◌, bit_and, bit_or, get_or,
}
use tiny_processors.Prelude.Bits.{flip, has}
use tiny_processors.Emulator.Clint.{Clint, mtime_now, low_half, high_half}
use tiny_processors.Emulator.Plic.{Plic, plic_best}
use tiny_processors.Emulator.Pmp.{Pmp, write_pmpcfg, write_pmpaddr, priv_u, priv_s, priv_m}
use tiny_processors.Emulator.Hart.{Hart, mstatus_value, mstatus_tvm}

-- MSTATUS_WRITABLE: SIE, MIE, SPIE, MPIE, SPP, FS, MPRV, SUM, MXR, TVM, TW and TSR.
abbrev pub mstatus_writable : ℕ
mstatus_writable = 0x7e_61aa

-- SSTATUS_MASK: SIE, SPIE, SPP, FS, SUM, MXR and SD.
abbrev pub sstatus_mask : ℕ
sstatus_mask = 0x800c_6122

abbrev pub medeleg_mask : ℕ
medeleg_mask = 0xb3ff

-- S_INTERRUPTS: SSIP, STIP and SEIP.
abbrev pub s_interrupts : ℕ
s_interrupts = 0x222

abbrev pub satp_mode : ℕ
satp_mode = 0x8000_0000

abbrev pub satp_ppn : ℕ
satp_ppn = 0x3f_ffff

pub data Csr : Type 0 where
  fflags frm fcsr sstatus sie stvec scounteren sscratch sepc scause stval sip satp : Csr
  mstatus misa medeleg mideleg mie mtvec mcounteren mscratch mepc mcause mtval mip : Csr
  pmpcfg : ℕ → Csr
  pmpaddr : ℕ → Csr
  cycle time instret cycleh timeh instreth mvendorid marchid mimpid mhartid : Csr

-- The values of the enumeration. PMPCFG has two registers and PMPADDR eight.
pub csr_number : Csr → ℕ
csr_number fflags = 0x001
csr_number frm = 0x002
csr_number fcsr = 0x003
csr_number sstatus = 0x100
csr_number sie = 0x104
csr_number stvec = 0x105
csr_number scounteren = 0x106
csr_number sscratch = 0x140
csr_number sepc = 0x141
csr_number scause = 0x142
csr_number stval = 0x143
csr_number sip = 0x144
csr_number satp = 0x180
csr_number mstatus = 0x300
csr_number misa = 0x301
csr_number medeleg = 0x302
csr_number mideleg = 0x303
csr_number mie = 0x304
csr_number mtvec = 0x305
csr_number mcounteren = 0x306
csr_number mscratch = 0x340
csr_number mepc = 0x341
csr_number mcause = 0x342
csr_number mtval = 0x343
csr_number mip = 0x344
csr_number (pmpcfg i) = 0x3a0 + i % 2
csr_number (pmpaddr i) = 0x3b0 + i % 8
csr_number cycle = 0xc00
csr_number time = 0xc01
csr_number instret = 0xc02
csr_number cycleh = 0xc80
csr_number timeh = 0xc81
csr_number instreth = 0xc82
csr_number mvendorid = 0xf11
csr_number marchid = 0xf12
csr_number mimpid = 0xf13
csr_number mhartid = 0xf14

abbrev pub all_csrs : List Csr
all_csrs =
    fflags
    ∷ frm
    ∷ fcsr
    ∷ sstatus
    ∷ sie
    ∷ stvec
    ∷ scounteren
    ∷ sscratch
    ∷ sepc
    ∷ scause
    ∷ stval
    ∷ sip
    ∷ satp
    ∷ mstatus
    ∷ misa
    ∷ medeleg
    ∷ mideleg
    ∷ mie
    ∷ mtvec
    ∷ mcounteren
    ∷ mscratch
    ∷ mepc
    ∷ mcause
    ∷ mtval
    ∷ mip
    ∷ pmpcfg 0
    ∷ pmpcfg 1
    ∷ pmpaddr 0
    ∷ pmpaddr 1
    ∷ pmpaddr 2
    ∷ pmpaddr 3
    ∷ pmpaddr 4
    ∷ pmpaddr 5
    ∷ pmpaddr 6
    ∷ pmpaddr 7
    ∷ cycle
    ∷ time
    ∷ instret
    ∷ cycleh
    ∷ timeh
    ∷ instreth
    ∷ mvendorid
    ∷ marchid
    ∷ mimpid
    ∷ mhartid
    ∷ []

pub find_csr : ℕ → List Csr → Option Csr
find_csr number [] = none
find_csr number (c ∷ cs) = if csr_number c == number then some c else find_csr number cs

-- The case of the `switch` that a number selects.
pub csr_of : ℕ → Option Csr
csr_of number = find_csr number all_csrs

-- What the CSRs read of the machine.
pub record Machine : Type 0 where
  pub hart : Hart
  pub clint : Clint
  pub plic : Plic
  pub steps : ℕ
  pub retired : ℕ

pub mip_now : Machine → ℕ
mip_now m =
    bit_or
      (bit_or
        (bit_or (if m.clint.msip != 0 then 2 ^ 3 else 0)
          (if leb m.clint.mtimecmp (mtime_now m.steps m.clint) then 2 ^ 7 else 0))
        (if plic_best m.plic != 0 then 2 ^ 11 else 0))
      m.hart.mip_soft

pub read_pmpcfg : ℕ → Pmp → ℕ
read_pmpcfg first p =
    bit_or
      (bit_or (bit_or (get_or p.pmpcfg first 0) (get_or p.pmpcfg (first + 1) 0 * 2 ^ 8))
        (get_or p.pmpcfg (first + 2) 0 * 2 ^ 16))
      (get_or p.pmpcfg (first + 3) 0 * 2 ^ 24)

-- The reads, by the case of the `switch`.
pub read_case : Csr → Machine → ℕ
read_case fflags m = bit_and m.hart.fcsr 31
read_case frm m = m.hart.fcsr / 2 ^ 5
read_case fcsr m = m.hart.fcsr
read_case sstatus m = bit_and (mstatus_value m.hart) sstatus_mask
read_case sie m = bit_and m.hart.mie m.hart.mideleg
read_case stvec m = m.hart.stvec
read_case scounteren m = m.hart.scounteren
read_case sscratch m = m.hart.sscratch
read_case sepc m = m.hart.sepc
read_case scause m = m.hart.scause
read_case stval m = m.hart.stval
read_case sip m = bit_and (mip_now m) m.hart.mideleg
read_case satp m = m.hart.satp
read_case mstatus m = mstatus_value m.hart
read_case misa m = 0x4014_1121
read_case medeleg m = m.hart.medeleg
read_case mideleg m = m.hart.mideleg
read_case mie m = m.hart.mie
read_case mtvec m = m.hart.mtvec
read_case mcounteren m = m.hart.mcounteren
read_case mscratch m = m.hart.mscratch
read_case mepc m = m.hart.mepc
read_case mcause m = m.hart.mcause
read_case mtval m = m.hart.mtval
read_case mip m = mip_now m
read_case (pmpcfg i) m = read_pmpcfg (4 * i) m.hart.pmp
read_case (pmpaddr i) m = get_or m.hart.pmp.pmpaddr i 0
read_case cycle m = low_half m.steps
read_case time m = low_half (mtime_now m.steps m.clint)
read_case instret m = low_half m.retired
read_case cycleh m = high_half m.steps
read_case timeh m = high_half (mtime_now m.steps m.clint)
read_case instreth m = high_half m.retired
read_case mvendorid m = 0
read_case marchid m = 0
read_case mimpid m = 0
read_case mhartid m = 0

pub csr_read : ℕ → Machine → Option ℕ
csr_read number m = elim (csr_of number) [ some c ↦ some (read_case c m) | none ↦ none ]

pub csr_read_only : ℕ → Bool
csr_read_only number = number / 2 ^ 10 == 3
