-- ===== src/Os/Kernel.antt =====
-- The kernel, programs/rv32/os/kernel.c: its process table and what else it keeps. The devices that it drives are the
-- interface Board, and the RAM disk of its image and the device tree's answers are the record Config.
pub mod Memory
pub mod Files
pub mod Paging
pub mod Process
pub mod Exit
pub mod Safety
pub mod Schedule
pub mod Fpu
pub mod Calls
pub mod Trap
pub mod Bounds
mod Samples
mod Tests
use tiny_processors.Prelude.{
  ℕ, ◌+◌, ◌-◌, ◌*◌, ◌/◌, ◌%◌, ◌^◌, Bool, true, false, not, ◌&&◌, ◌||◌, List, [], ◌∷◌, Option, none,
  some, ltb, leb, ◌==◌, ◌!=◌, if◌then◌else◌, get_or, set, bit_and,
}
use tiny_processors.Prelude.Bits.{has}
use tiny_processors.Os.Fs.{Fs}
use tiny_processors.Os.Disk.{Disk}

abbrev pub max_procs : ℕ
max_procs = 8

abbrev pub key_buffer : ℕ
key_buffer = 64

abbrev pub args_max : ℕ
args_max = 64

abbrev pub open_files : ℕ
open_files = 4

abbrev pub os_first_file : ℕ
os_first_file = 3

abbrev pub sys_error : ℕ
sys_error = 0xffff_ffff

abbrev pub page_size : ℕ
page_size = 4096

abbrev pub os_guard_size : ℕ
os_guard_size = 4096

abbrev pub os_slot_base : ℕ
os_slot_base = 0x8010_0000

abbrev pub os_slot_size : ℕ
os_slot_size = 0x2_0000

abbrev pub os_slots : ℕ
os_slots = 120

abbrev pub program_accelerators : ℕ
program_accelerators = 1

abbrev pub mstatus_fs : ℕ
mstatus_fs = 0x6000

abbrev pub o_read : ℕ
o_read = 1

abbrev pub o_write : ℕ
o_write = 2

abbrev pub o_create : ℕ
o_create = 4

pub data State : Type 0 where
  free ready running blocked_read blocked_wait blocked_sleep zombie : State

pub record OpenFile : Type 0 where
  pub mode : ℕ
  pub file : ℕ
  pub position : ℕ

-- `struct proc`, with the registers, the pc and the mstatus of its frame.
pub record Proc : Type 0 where
  pub x : List ℕ
  pub pc : ℕ
  pub mstatus : ℕ
  pub files : List OpenFile
  pub state : State
  pub pid : ℕ
  pub parent : ℕ
  pub base : ℕ
  pub span : ℕ
  pub brk : ℕ
  pub exit_code : ℕ
  pub wait_pid : ℕ
  pub flags : ℕ
  pub switches : ℕ
  pub wake : ℕ
  pub name : List ℕ

-- `struct address_space`. `float_state` stands for `struct fstate`.
pub record Space : Type 0 where
  pub tables : ℕ
  pub base : ℕ
  pub span : ℕ
  pub guard : ℕ
  pub drives_engines : Bool
  pub float_state : List ℕ

pub record Program : Type 0 where
  pub name : List ℕ
  pub load : ℕ
  pub entry : ℕ
  pub file_size : ℕ
  pub memory_size : ℕ
  pub offset : ℕ
  pub flags : ℕ
  pub span : ℕ
  pub stack : ℕ

-- What the kernel learns at boot: its RAM disk, and the windows of the devices that the tree lists (0 for none).
pub record Config : Type 0 where
  pub programs : List Program
  pub ramdisk : ℕ → ℕ
  pub has_input : Bool
  pub input_source : ℕ
  pub has_display : Bool
  pub framebuffer : ℕ
  pub framebuffer_size : ℕ
  pub has_palette : Bool
  pub boot_palette : ℕ → ℕ
  pub engine_windows : List (ℕ × ℕ)
  pub page_tables : ℕ
  pub tick : ℕ

-- The devices as the kernel drives them, by their registers, and the FPU. `engines_at_work` reads the status of G1
-- and G2, `reset_engines` resets those at work, and `protect` writes PMP and the DMA window for the slots at a base
-- of a span, with the accelerators or not, and satp for the page tables of an entry.
pub record Board (B : Type 0) : Type 0 where
  pub console_ready : B → Bool × B
  pub console_get : B → ℕ × B
  pub console_put : ℕ → B → B
  pub mtime : B → ℕ × B
  pub set_timer : ℕ → B → B
  pub plic_claim : B → ℕ × B
  pub plic_complete : ℕ → B → B
  pub input_event : B → ℕ × B
  pub input_keys : B → ℕ × B
  pub present : B → ℕ × B
  pub palette_get : ℕ → B → ℕ × B
  pub palette_put : ℕ → ℕ → B → B
  pub engines_at_work : B → Bool × B
  pub reset_engines : B → B
  pub protect : ℕ → ℕ → Bool → ℕ → B → B
  pub fpu_save : B → List ℕ
  pub fpu_load : List ℕ → B → B

-- The kernel's statics, the memory of the machine and the state of the board. Processes go by their index.
pub record Kernel (B D : Type 0) : Type 0 where
  pub procs : List Proc
  pub spaces : List Space
  pub current : Option ℕ
  pub fpu_owner : Option ℕ
  pub next_pid : ℕ
  pub exits : ℕ
  pub exit_sum : ℕ
  pub palette_writer : ℕ
  pub protected_pid : ℕ
  pub engines_used : Bool
  pub keys : List ℕ
  pub key_head : ℕ
  pub key_count : ℕ
  pub keys_dropped : ℕ
  pub fs : Fs D
  pub memory : ℕ → ℕ
  pub board : B

-- A call returns, or stops the machine by `halt`, with its code, or by `panic`.
pub data Outcome (B D : Type 0) (A : Type 0) : Type 0 where
  returns : A → Kernel B D → Outcome B D A
  halts : ℕ → Kernel B D → Outcome B D A
  panics : Kernel B D → Outcome B D A

abbrev pub no_file : OpenFile
no_file = record { mode = 0; file = 0; position = 0 }

abbrev pub no_proc : Proc
no_proc = record {
  x = [];
  pc = 0;
  mstatus = 0;
  files = [];
  state = free;
  pid = 0;
  parent = 0;
  base = 0;
  span = 0;
  brk = 0;
  exit_code = 0;
  wait_pid = 0;
  flags = 0;
  switches = 0;
  wake = 0;
  name = [];
}

abbrev pub no_space : Space
no_space = record {
  tables = 0;
  base = 0;
  span = 0;
  guard = 0;
  drives_engines = false;
  float_state = [];
}

abbrev pub is_free : State → Bool
is_free free = true
is_free s = false

abbrev pub is_ready : State → Bool
is_ready ready = true
is_ready s = false

abbrev pub is_running : State → Bool
is_running running = true
is_running s = false

abbrev pub is_zombie : State → Bool
is_zombie zombie = true
is_zombie s = false

abbrev pub alive : Proc → Bool
alive p = not (is_free p.state) && not (is_zombie p.state)

-- Whether a program drives the accelerators.
abbrev pub drives : Proc → Bool
drives p = has p.flags program_accelerators

module _ {B D : Type 0} where
  abbrev pub proc_at : Kernel B D → ℕ → Proc
  proc_at k i = get_or k.procs i no_proc

  abbrev pub space_at : Kernel B D → ℕ → Space
  space_at k i = get_or k.spaces i no_space

  abbrev pub with_proc : ℕ → Proc → Kernel B D → Kernel B D
  with_proc i p k = record k { procs = set k.procs i p }

  abbrev pub with_space : ℕ → Space → Kernel B D → Kernel B D
  with_space i s k = record k { spaces = set k.spaces i s }

  abbrev pub with_board : B → Kernel B D → Kernel B D
  with_board b k = record k { board = b }

  -- The chain of calls, any of which may stop the machine.
  infixl 5 ◌>>=◌
  abbrev pub ◌>>=◌ :
      {A C : Type 0} → Outcome B D A → (A × Kernel B D → Outcome B D C) → Outcome B D C
  returns a k >>= f = f (a, k)
  halts code k >>= f = halts code k
  panics k >>= f = panics k
