-- ===== src/Emulator/Step.antt =====
-- One step of the machine of tools/rv32emu_core.c: `step` and what it calls, and the run loop.
pub mod Decode
pub mod Alu
pub mod Float
pub mod Control
pub mod Execute
pub mod Cycle
