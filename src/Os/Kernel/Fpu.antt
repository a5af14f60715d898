-- ===== src/Os/Kernel/Fpu.antt =====
-- The lazy switch of the FPU in programs/rv32/os/kernel.c: `floating_instruction` and `claim_fpu`.
pub mod Owner
mod Tests
use tiny_processors.Prelude.{
  ℕ, ◌+◌, ◌/◌, ◌%◌, ◌^◌, Bool, true, false, not, ◌&&◌, ◌||◌, List, [], ◌∷◌, Option, none, some, leb,
  ◌==◌, ◌!=◌, if◌then◌else◌, bit_and, bit_or,
}
use tiny_processors.Prelude.Bits.{has, flip}
use tiny_processors.Os.Kernel.{
  Kernel, Board, Outcome, returns, panics, Proc, alive, proc_at, space_at, with_proc, with_space,
  mstatus_fs,
}

unfoldable pub floating_instruction : ℕ → Bool
floating_instruction word =
    let opcode = word % 2 ^ 7 in
    let funct3 = word / 2 ^ 12 % 8 in
    let csr = word / 2 ^ 20 in
    opcode == 0x07
    || opcode == 0x27
    || opcode == 0x43
    || opcode == 0x47
    || opcode == 0x4b
    || opcode == 0x4f
    || opcode == 0x53
    || opcode == 0x73 && funct3 % 4 != 0 && leb 1 csr && leb csr 3

abbrev pub fs_on : Proc → Bool
fs_on p = has p.mstatus mstatus_fs

-- Whether a live process other than the one at `i` has its FS field on.
unfoldable pub another_floats : ℕ → ℕ → List Proc → Bool
another_floats i j [] = false
another_floats i j (p ∷ rest) = (i != j && alive p && fs_on p) || another_floats i (j + 1) rest

-- FS is turned off.
abbrev pub without_fs : Proc → Proc
without_fs p = record p { mstatus = bit_and p.mstatus (flip 32 mstatus_fs) }

module _ {B D : Type 0} (board : Board B) where
  -- The owner gives the FPU up: its state is saved if FS says that it is dirty.
  unfoldable pub give_up : Option ℕ → Kernel B D → Kernel B D
  give_up none k = k
  give_up (some i) k =
      let owner = proc_at k i in
      let k' = with_proc i (without_fs owner) k in
      if bit_and owner.mstatus mstatus_fs == mstatus_fs
      then with_space i (record (space_at k i) { float_state = board.fpu_save k.board }) k'
      else k'

  -- The process at `i` has the FPU, its state loaded and clean.
  unfoldable pub take_fpu : ℕ → Kernel B D → Kernel B D
  take_fpu i k =
      let p = proc_at k i in
      record (with_proc i (record p { mstatus = bit_or p.mstatus 0x4000 }) k) {
        fpu_owner = some i;
        board = board.fpu_load (space_at k i).float_state k.board;
      }

  unfoldable pub claim_fpu : ℕ → ℕ → Kernel B D → Outcome B D Bool
  claim_fpu i word k =
      if fs_on (proc_at k i) || not (floating_instruction word)
      then returns false k
      else let k' = take_fpu i (give_up k.fpu_owner k) in
        if another_floats i 0 k'.procs then panics k' else returns true k'
