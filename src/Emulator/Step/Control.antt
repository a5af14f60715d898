-- ===== src/Emulator/Step/Control.antt =====
-- How an instruction of `step` in tools/rv32emu_core.c ends, and the cases of its `switch` that touch neither
-- memory nor the floating-point unit: jumps, branches and SYSTEM.
use tiny_processors.Prelude.{
  ℕ, ◌+◌, ◌/◌, ◌%◌, ◌^◌, Bool, false, ◌&&◌, Option, none, some, ltb, ◌==◌, ◌!=◌, if◌then◌else◌,
  bit_and, bit_or, get_or,
}
use tiny_processors.Prelude.Bits.{flip}
use tiny_processors.Emulator.Access.{Access, acc_ok, acc_fault, acc_misaligned, acc_page_fault}
use tiny_processors.Emulator.Bus.{Emu, with_hart}
use tiny_processors.Emulator.Csr.Write.{csr_instruction}
use tiny_processors.Emulator.Hart.{
  Hart, mret, sret, supervisor_allows, mstatus_tsr, mstatus_tw, mstatus_tvm,
}
use tiny_processors.Emulator.Pmp.{priv_u, priv_s, priv_m}
use tiny_processors.Emulator.Step.Decode.{
  cause_fetch_misaligned, cause_illegal, cause_breakpoint, cause_ecall_u, cause_ecall_s,
  cause_ecall_m, rs1_of, rs2_of, funct3_of, imm_i, imm_b,
}
use tiny_processors.Emulator.Step.Alu.{branch_taken}

-- How an instruction ends: with a trap, or at the bottom of `step` with the next pc and the values for
-- rd and fd, if it writes them.
pub data Exec (D : Type 0) : Type 0 where
  traps : (cause tval : ℕ) → Emu D → Exec D
  retires : (next : ℕ) (rd fd : Option ℕ) → Emu D → Exec D

-- `rv32_fp` of tools/rv32_fp.c, from operation, rounding mode and operands to result and flags.
abbrev pub FloatUnit : Type 0
FloatUnit = ℕ → ℕ → ℕ → ℕ → ℕ → ℕ × ℕ

abbrev pub x_at : Hart → ℕ → ℕ
x_at h i = get_or h.x i 0

abbrev pub f_at : Hart → ℕ → ℕ
f_at h i = get_or h.f i 0

-- The sign extension of LB and LH.
pub extended : ℕ → ℕ → ℕ
extended funct3 value =
    if funct3 == 0
    then if ltb (value % 2 ^ 8) (2 ^ 7) then value % 2 ^ 8 else value % 2 ^ 8 + 0xffff_ff00
    else if funct3 == 1
    then if ltb (value % 2 ^ 16) (2 ^ 15) then value % 2 ^ 16 else value % 2 ^ 16 + 0xffff_0000
    else value

-- The flags that an operation raises, in fcsr.
unfoldable pub raise_flags : ℕ → Hart → Hart
raise_flags flags h = record h { fcsr = bit_or h.fcsr flags; wr_fcsr = flags != 0 }

module _ {D : Type 0} where
  unfoldable pub after : Emu D → ℕ
  after e = (e.machine.hart.pc + 4) % 2 ^ 32

  abbrev pub illegal : ℕ → Emu D → Exec D
  illegal word e = traps cause_illegal word e

  -- `if (status != ACC_OK) { trap(m, word, cause(status), addr); return; }`, and what follows it.
  unfoldable pub unless_refused {ℓ} :
      {A : Type ℓ} → Access A → (Access A → ℕ) → ℕ → Emu D → (A → Exec D) → Exec D
  unless_refused (acc_ok a) cause addr e next = next a
  unless_refused acc_misaligned cause addr e next = traps (cause acc_misaligned) addr e
  unless_refused acc_page_fault cause addr e next = traps (cause acc_page_fault) addr e
  unless_refused acc_fault cause addr e next = traps (cause acc_fault) addr e

  -- An instruction that writes rd, or is illegal.
  unfoldable pub computes : Option ℕ → ℕ → Emu D → Exec D
  computes (some result) word e = retires (after e) (some result) none e
  computes none word e = illegal word e

  unfoldable pub jump : ℕ → Option ℕ → Emu D → Exec D
  jump target rd e =
      if bit_and target 3 != 0
      then traps cause_fetch_misaligned target e
      else retires target rd none e

  unfoldable pub execute_branch : ℕ → Emu D → Exec D
  execute_branch word e =
      let h = e.machine.hart in
      elim (branch_taken (funct3_of word) (x_at h (rs1_of word)) (x_at h (rs2_of word))) [
        | none ↦ illegal word e
        | some taken ↦
            if taken
            then jump ((h.pc + imm_b word) % 2 ^ 32) none e
            else retires (after e) none none e
      ]

  unfoldable pub execute_jalr : ℕ → Emu D → Exec D
  execute_jalr word e =
      let h = e.machine.hart in
      if funct3_of word != 0
      then illegal word e
      else jump (bit_and ((x_at h (rs1_of word) + imm_i word) % 2 ^ 32) (flip 32 1))
          (some (after e)) e

  -- SYSTEM with funct3 0: ECALL, EBREAK, MRET, SRET, WFI and SFENCE.VMA.
  unfoldable pub execute_privileged : ℕ → Emu D → Exec D
  execute_privileged word e =
      let h = e.machine.hart in
      if word == 0x73
      then traps
          (if h.priv == priv_u
            then cause_ecall_u
            else if h.priv == priv_s
            then cause_ecall_s
            else cause_ecall_m)
          0 e
      else if word == 0x10_0073
      then traps cause_breakpoint h.pc e
      else if word == 0x3020_0073 && h.priv == priv_m
      then retires h.mepc none none (with_hart (mret h) e)
      else if word == 0x1020_0073 && supervisor_allows mstatus_tsr h
      then retires h.sepc none none (with_hart (sret h) e)
      else if word == 0x1050_0073 && supervisor_allows mstatus_tw h
      then retires (after e) none none e
      else if bit_and word 0xfe00_7fff == 0x1200_0073 && supervisor_allows mstatus_tvm h
      then retires (after e) none none (with_hart (record h { reserved = false }) e)
      else illegal word e

  unfoldable pub execute_csr : ℕ → ℕ → Emu D → Exec D
  execute_csr funct3 word e =
      elim (csr_instruction funct3 (rs1_of word) (word / 2 ^ 20) (x_at e.machine.hart (rs1_of word))
        e.machine) [
          | none ↦ illegal word e
          | some (old, h') ↦ retires (after e) (some old) none (with_hart h' e)
        ]

  unfoldable pub execute_system : ℕ → Emu D → Exec D
  execute_system word e =
      let funct3 = funct3_of word in
      if funct3 == 0
      then execute_privileged word e
      else if funct3 == 4
      then illegal word e
      else execute_csr funct3 word e

  -- A result that goes to an integer register or to a floating-point one.
  unfoldable pub delivers : Bool → ℕ → Emu D → Exec D
  delivers to_x result e =
      if to_x
      then retires (after e) (some result) none e
      else retires (after e) none (some result) e
