-- ===== src/Emulator/Step/Execute.antt =====
-- The `switch` of `step` in tools/rv32emu_core.c, with its memory, atomic and floating-point cases,
-- each as a function of the machine. The fields that only the trace reads are left out.
pub mod Effects
pub mod Within
use tiny_processors.Prelude.{
  ℕ, ◌+◌, ◌*◌, ◌/◌, ◌%◌, ◌^◌, Bool, true, false, not, ◌&&◌, ◌||◌, none, some, ltb, ◌==◌, ◌!=◌,
  if◌then◌else◌, bit_and,
}
use tiny_processors.Emulator.Access.{Access, acc_ok, acc_fault, ◌>>=◌}
use tiny_processors.Emulator.Amo.{amo_valid, amo_lr, amo_sc}
use tiny_processors.Emulator.Bus.{Emu, Engines, with_hart, load, store, amo}
use tiny_processors.Emulator.Hart.{data_priv, fs_off}
use tiny_processors.Emulator.Pmp.{pmp_allows, pmp_w}
use tiny_processors.Emulator.Sv32.{walk_store, translate}
use tiny_processors.Emulator.Step.Decode.{
  cause_store_misaligned, load_cause, store_cause, rs1_of, rs2_of, funct3_of, imm_i, imm_s, imm_j,
  width_of, floating_instruction,
}
use tiny_processors.Emulator.Step.Alu.{op_imm, op}
use tiny_processors.Emulator.Step.Float.{FloatOp, arithmetic, moved, decode_float, rounding}
pub use tiny_processors.Emulator.Step.Control.{
  Exec, traps, retires, FloatUnit, x_at, f_at, illegal, extended,
}
unfoldable pub use tiny_processors.Emulator.Step.Control.{
  raise_flags, after, unless_refused, computes, jump, execute_branch, execute_jalr,
  execute_privileged, execute_csr, execute_system, delivers,
}

module _ {D : Type 0} where
  module _ (engines : Engines D) (rv32_fp : FloatUnit) where
    pub run_float : FloatOp → ℕ → Emu D → Exec D
    run_float (moved result to_x) word e = delivers to_x result e
    run_float (arithmetic operation rounded fa to_x) word e =
        let h = e.machine.hart in
        elim (rounding rounded (funct3_of word) h.fcsr) [
          | none ↦ illegal word e
          | some rm ↦
              let (result, flags) =
                rv32_fp operation rm fa (f_at h (rs2_of word)) (f_at h (word / 2 ^ 27)) in
              delivers to_x result (with_hart (raise_flags flags h) e)
        ]

    pub execute_float : ℕ → Emu D → Exec D
    execute_float word e =
        let h = e.machine.hart in
        elim (decode_float word (x_at h (rs1_of word)) (f_at h (rs1_of word))
          (f_at h (rs2_of word))) [
            | none ↦ illegal word e
            | some operation ↦ run_float operation word e
          ]

    pub execute_load : Bool → ℕ → Emu D → Exec D
    execute_load to_f word e =
        let funct3 = funct3_of word in
        let addr = (x_at e.machine.hart (rs1_of word) + imm_i word) % 2 ^ 32 in
        if (to_f && funct3 != 2) || funct3 == 3 || ltb 5 funct3
        then illegal word e
        else unless_refused (load engines addr (width_of funct3) e) load_cause addr e
            (λ (value, at, e'). delivers (not to_f) (extended funct3 value) e')

    pub execute_store : Bool → ℕ → Emu D → Exec D
    execute_store from_f word e =
        let funct3 = funct3_of word in
        let h = e.machine.hart in
        let addr = (x_at h (rs1_of word) + imm_s word) % 2 ^ 32 in
        let b = if from_f then f_at h (rs2_of word) else x_at h (rs2_of word) in
        let width = width_of funct3 in
        if (from_f && funct3 != 2) || ltb 2 funct3
        then illegal word e
        else unless_refused
            (store engines addr width (if width == 4 then b else b % 2 ^ (8 * width)) e) store_cause
            addr e (retires (after e) none none)

    pub execute_lr : ℕ → Emu D → Exec D
    execute_lr addr e =
        unless_refused (load engines addr 4 e) load_cause addr e (λ (value, physical, e').
          retires (after e) (some value) none (
            with_hart
              (record e'.machine.hart {
                reserved = true;
                reservation = addr / 2 ^ 2;
                reservation_pa = physical / 2 ^ 2;
              })
              e'))

    -- The end of an SC: the reservation is gone, and rd says whether it stored.
    pub conclude_sc : Bool → Emu D → Exec D
    conclude_sc held e =
        retires (after e) (some (if held then 0 else 1)) none
          (with_hart (record e.machine.hart { reserved = false }) e)

    -- An SC that still holds its reservation once the address is translated.
    pub store_conditional : ℕ → ℕ → Emu D → Exec D
    store_conditional addr b e =
        unless_refused (store engines addr 4 b e) store_cause addr e (conclude_sc true)

    -- The translation and the PMP check of an SC.
    pub store_target : ℕ → Emu D → Access ℕ
    store_target addr e = do
      physical ← translate e.ram e.machine.hart addr walk_store (data_priv e.machine.hart)
      if pmp_allows (data_priv e.machine.hart) e.machine.hart.pmp physical pmp_w
          then acc_ok physical
          else acc_fault

    -- An SC that holds its reservation by its virtual address.
    pub reserved_sc : ℕ → ℕ → Emu D → Exec D
    reserved_sc addr b e =
        let h = e.machine.hart in
        unless_refused (store_target addr e) store_cause addr e (λ physical.
          if physical / 2 ^ 2 == h.reservation_pa
          then store_conditional addr b e
          else conclude_sc false e)

    pub execute_sc : ℕ → ℕ → Emu D → Exec D
    execute_sc addr b e =
        let h = e.machine.hart in
        if addr % 4 != 0
        then traps cause_store_misaligned addr e
        else if h.reserved && h.reservation == addr / 2 ^ 2
        then reserved_sc addr b e
        else conclude_sc false e

    pub execute_amo : ℕ → ℕ → ℕ → Emu D → Exec D
    execute_amo addr funct5 b e =
        let (status, e') = amo engines addr funct5 b e in
        unless_refused status store_cause addr e' (λ old. retires (after e) (some old) none e')

    -- Opcode 0x2f, the A extension.
    pub execute_atomic : ℕ → Emu D → Exec D
    execute_atomic word e =
        let h = e.machine.hart in
        let funct5 = word / 2 ^ 27 in
        let addr = x_at h (rs1_of word) in
        let b = x_at h (rs2_of word) in
        if funct3_of word != 2 || not (amo_valid funct5 (rs2_of word))
        then illegal word e
        else if funct5 == amo_lr
        then execute_lr addr e
        else if funct5 == amo_sc
        then execute_sc addr b e
        else execute_amo addr funct5 b e

    -- The `switch` on the opcode.
    pub dispatch : ℕ → ℕ → Emu D → Exec D
    dispatch opcode word e =
        let h = e.machine.hart in
        let upper = bit_and word 0xffff_f000 in
        let a = x_at h (rs1_of word) in
        if opcode == 0x37
        then computes (some upper) word e
        else if opcode == 0x17
        then computes (some ((h.pc + upper) % 2 ^ 32)) word e
        else if opcode == 0x6f
        then jump ((h.pc + imm_j word) % 2 ^ 32) (some (after e)) e
        else if opcode == 0x67
        then execute_jalr word e
        else if opcode == 0x63
        then execute_branch word e
        else if opcode == 0x07
        then execute_load true word e
        else if opcode == 0x03
        then execute_load false word e
        else if opcode == 0x27
        then execute_store true word e
        else if opcode == 0x23
        then execute_store false word e
        else if opcode == 0x2f
        then execute_atomic word e
        else if opcode == 0x13
        then computes (op_imm (funct3_of word) (word / 2 ^ 25) a (imm_i word) (rs2_of word)) word e
        else if opcode == 0x33
        then computes (op (funct3_of word) (word / 2 ^ 25) a (x_at h (rs2_of word))) word e
        else if opcode == 0x0f
        then if ltb 1 (funct3_of word) then illegal word e else retires (after e) none none e
        else if opcode == 0x43
            || opcode == 0x47
            || opcode == 0x4b
            || opcode == 0x4f
            || opcode == 0x53
        then execute_float word e
        else if opcode == 0x73
        then execute_system word e
        else illegal word e

    pub execute : ℕ → Emu D → Exec D
    execute word e =
        if fs_off e.machine.hart && floating_instruction word
        then illegal word e
        else dispatch (bit_and word 0x7f) word e
