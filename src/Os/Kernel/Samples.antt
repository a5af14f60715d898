-- ===== src/Os/Kernel/Samples.antt =====
-- A machine with two processes, for the tests of the kernel.
use tiny_processors.Prelude.{false, [], ◌∷◌, some, none, replicate, ◌++◌}
use tiny_processors.Os.Disk.{Disk}
use tiny_processors.Os.Kernel.{Kernel, Board, Config, Proc, running, ready, no_proc, no_space}

abbrev pub broken_disk : Disk (Unit {0})
broken_disk = record {
  transfer_in = λ sector count d. (false, λ k. 0, d);
  transfer_out = λ sector put d. (false, d);
}

-- A board whose devices are silent.
abbrev pub quiet_board : Board (Unit {0})
quiet_board = record {
  console_ready = λ b. (false, b);
  console_get = λ b. (0, b);
  console_put = λ byte b. b;
  mtime = λ b. (0, b);
  set_timer = λ time b. b;
  plic_claim = λ b. (0, b);
  plic_complete = λ source b. b;
  input_event = λ b. (0, b);
  input_keys = λ b. (0, b);
  present = λ b. (0, b);
  palette_get = λ i b. (0, b);
  palette_put = λ i colour b. b;
  engines_at_work = λ b. (false, b);
  reset_engines = λ b. b;
  protect = λ base span drives entry b. b;
  fpu_save = λ b. [];
  fpu_load = λ registers b. b;
}

abbrev pub plain_config : Config
plain_config = record {
  programs = [];
  ramdisk = λ at. 0;
  has_input = false;
  input_source = 0;
  has_display = false;
  framebuffer = 0;
  framebuffer_size = 0;
  has_palette = false;
  boot_palette = λ i. 0;
  engine_windows = [];
  page_tables = 0x8008_0000;
  tick = 10000;
}

-- The first process makes the call of number 10, `SYS_YIELD`.
abbrev pub first : Proc
first = record no_proc {
  x = replicate 17 0 ++ (10 ∷ replicate 14 0);
  state = running;
  pid = 1;
  base = 0x8010_0000;
  span = 0x2_0000;
}

abbrev pub second : Proc
second = record no_proc {
  x = replicate 32 0;
  state = ready;
  pid = 2;
  parent = 1;
  base = 0x8012_0000;
  span = 0x2_0000;
}

abbrev pub kernel : Kernel (Unit {0}) (Unit {0})
kernel = record {
  procs = first ∷ second ∷ replicate 6 no_proc;
  spaces = replicate 8 no_space;
  current = some 0;
  fpu_owner = none;
  next_pid = 3;
  exits = 0;
  exit_sum = 0;
  palette_writer = 0;
  protected_pid = 1;
  engines_used = false;
  keys = [];
  key_head = 0;
  key_count = 0;
  keys_dropped = 0;
  fs = record { directory = []; sectors = 0; mounted = false; driver = tt };
  memory = λ at. 0;
  board = tt;
}
