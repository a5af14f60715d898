-- ===== src/Emulator/Step/Execute/Within.antt =====
-- The memory, atomic and floating-point instructions, and `execute` as a whole, are within the relation `Effect`.
use tiny_processors.Prelude.{
  ℕ, ◌+◌, ◌/◌, ◌%◌, ◌^◌, ◌≡◌, refl, inl, inr, Bool, true, false, not, none, some, ◌==◌,
  if◌then◌else◌, Option-cases,
}
use tiny_processors.Emulator.Bus.{Emu, Engines, with_hart, load, store, amo}
use tiny_processors.Emulator.Bus.Frame.{core, load-core, store-core, amo-core}
use tiny_processors.Emulator.Step.Decode.{
  rs1_of, rs2_of, funct3_of, imm_i, width_of, load_cause, store_cause,
}
use tiny_processors.Emulator.Step.Float.{FloatOp, arithmetic, moved, decode_float, rounding}
use tiny_processors.Emulator.Step.Execute
use tiny_processors.Emulator.Step.Execute.Effects.{
  Ends, Effect, illegal-Ends, goes_on, after_access, ends, computes-Ends, branch-Ends, jalr-Ends,
  system-Ends, delivers-Ends, unless_refused-Ends,
}

module _ {D : Type 0} where
  float_delivers :
      (to_x : Bool) (result raised : ℕ) (e : Emu D)
      → Ends e
          (Execute.delivers to_x result (with_hart (Execute.raise_flags raised e.machine.hart) e))
  unfolding Execute.delivers Execute.after Execute.raise_flags
  float_delivers true result raised e =
      Ends.retiring _ (some result) none _ refl (Effect.flags raised)
  float_delivers false result raised e =
      Ends.retiring _ none (some result) _ refl (Effect.flags raised)

  module _ (engines : Engines D) (rv32_fp : Execute.FloatUnit) where
    float_op-Ends :
        (operation : FloatOp) (word : ℕ) (e : Emu D)
        → Ends e (Execute.run_float engines rv32_fp operation word e)
    unfolding Execute.run_float
    float_op-Ends (moved result to_x) word e = delivers-Ends to_x result e e refl
    float_op-Ends (arithmetic operation rounded fa to_x) word e =
        elim (Option-cases (rounding rounded (funct3_of word) e.machine.hart.fcsr)) [
          | inl refused ↦ rw (Execute.run_float, refused) (illegal-Ends _ _)
          | inr (rm, dynamic) ↦ rw (Execute.run_float, dynamic) (float_delivers to_x _ _ e)
        ]

    float-Ends : (word : ℕ) (e : Emu D) → Ends e (Execute.execute_float engines rv32_fp word e)
    unfolding Execute.execute_float
    float-Ends word e =
        elim (Option-cases (
          decode_float word (Execute.x_at e.machine.hart (rs1_of word))
            (Execute.f_at e.machine.hart (rs1_of word))
            (Execute.f_at e.machine.hart (rs2_of word)))) [
              | inl refused ↦ rw (Execute.execute_float, refused) (illegal-Ends _ _)
              | inr (operation, decoded) ↦
                  rw (Execute.execute_float, decoded) (float_op-Ends operation word e)
            ]

    load-Ends :
        (to_f : Bool) (word : ℕ) (e : Emu D)
        → Ends e (Execute.execute_load engines rv32_fp to_f word e)
    unfolding Execute.execute_load
    load-Ends to_f word e =
        let addr = (Execute.x_at e.machine.hart (rs1_of word) + imm_i word) % 2 ^ 32 in
        let width = width_of (funct3_of word) in
        search
          (
            ends,
            unless_refused-Ends (load engines addr width e) load_cause addr e e _ refl (λ r loaded.
                delivers-Ends (not to_f) (Execute.extended (funct3_of word) r.0) e r.2
                  ((load-core engines addr width e).at r loaded)),
          )
          depth 8

    stored-Ends :
        (addr width value : ℕ) (e : Emu D)
        → Ends e (
            Execute.unless_refused
              (store engines addr width value e)
              store_cause
              addr
              e
              (Execute.retires (Execute.after e) none none))
    stored-Ends addr width value e =
        unless_refused-Ends (store engines addr width value e) store_cause addr e e _ refl
          (λ e' stored.
            goes_on e e' none none ((store-core engines addr width value e).at e' stored))

    store-Ends :
        (from_f : Bool) (word : ℕ) (e : Emu D)
        → Ends e (Execute.execute_store engines rv32_fp from_f word e)
    unfolding Execute.execute_store
    store-Ends from_f word e = search (ends, stored-Ends) depth 8

    lr-Ends : (addr : ℕ) (e : Emu D) → Ends e (Execute.execute_lr engines rv32_fp addr e)
    unfolding Execute.execute_lr
    lr-Ends addr e =
        unless_refused-Ends (load engines addr 4 e) load_cause addr e e _ refl
          (λ r loaded. goes_on e _ (some r.0) none ((load-core engines addr 4 e).at r loaded))

    conclude-Ends :
        (held : Bool) (e e' : Emu D)
        → core e' ≡ core e
        → Ends e (Execute.conclude_sc engines rv32_fp held e')
    unfolding Execute.conclude_sc Execute.after
    conclude-Ends held e e' c =
        after_access e (with_hart (record e'.machine.hart { reserved = false }) e') _ none c

    conditional-Ends :
        (addr b : ℕ) (e : Emu D) → Ends e (Execute.store_conditional engines rv32_fp addr b e)
    unfolding Execute.store_conditional
    conditional-Ends addr b e =
        unless_refused-Ends (store engines addr 4 b e) store_cause addr e e _ refl
          (λ e' stored. conclude-Ends true e e' ((store-core engines addr 4 b e).at e' stored))

    matched-Ends :
        (same : Bool) (addr b : ℕ) (e : Emu D)
        → Ends e (
            if same
            then Execute.store_conditional engines rv32_fp addr b e
            else Execute.conclude_sc engines rv32_fp false e)
    matched-Ends true addr b e = conditional-Ends addr b e
    matched-Ends false addr b e = conclude-Ends false e e refl

    reserved-Ends : (addr b : ℕ) (e : Emu D) → Ends e (Execute.reserved_sc engines rv32_fp addr b e)
    unfolding Execute.reserved_sc
    reserved-Ends addr b e =
        unless_refused-Ends (Execute.store_target engines rv32_fp addr e) store_cause addr e e _
          refl
          (λ physical found.
            matched-Ends (physical / 2 ^ 2 == e.machine.hart.reservation_pa) addr b e)

    sc-Ends : (addr b : ℕ) (e : Emu D) → Ends e (Execute.execute_sc engines rv32_fp addr b e)
    unfolding Execute.execute_sc
    sc-Ends addr b e = search (ends, reserved-Ends, conclude-Ends false e e refl) depth 8

    amo-Ends :
        (addr funct5 b : ℕ) (e : Emu D)
        → Ends e (Execute.execute_amo engines rv32_fp addr funct5 b e)
    unfolding Execute.execute_amo
    amo-Ends addr funct5 b e =
        let c = amo-core engines addr funct5 b e in
        unless_refused-Ends (amo engines addr funct5 b e).0 store_cause addr e
          (amo engines addr funct5 b e).1 _ c
          (λ old read. goes_on e (amo engines addr funct5 b e).1 (some old) none c)

    atomic-Ends : (word : ℕ) (e : Emu D) → Ends e (Execute.execute_atomic engines rv32_fp word e)
    unfolding Execute.execute_atomic
    atomic-Ends word e = search (ends, lr-Ends, sc-Ends, amo-Ends) depth 8

    dispatch-Ends :
        (opcode word : ℕ) (e : Emu D) → Ends e (Execute.dispatch engines rv32_fp opcode word e)
    unfolding Execute.dispatch
    dispatch-Ends opcode word e =
        search
          (
            ends, computes-Ends, branch-Ends, jalr-Ends, load-Ends, store-Ends, atomic-Ends,
            float-Ends, system-Ends,
          )
          depth 24

    pub execute-Ends : (word : ℕ) (e : Emu D) → Ends e (Execute.execute engines rv32_fp word e)
    unfolding Execute.execute
    execute-Ends word e = search (ends, dispatch-Ends) depth 4
