-- ===== src/Emulator.antt =====
-- The RV32 machine of tools/rv32emu_core.c.
pub mod Access
pub mod Muldiv
pub mod Plic
pub mod Input
pub mod Clint
pub mod Pmp
pub mod Hart
pub mod Csr
pub mod Console
pub mod Amo
pub mod Memory
pub mod Sv32
pub mod Virtio
pub mod Bus
pub mod Step
