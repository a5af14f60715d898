-- ===== src/Os/Kernel/Tests.antt =====
-- The kernel on concrete calls.
use tiny_processors.Prelude.{
  ◌≡◌, refl, true, false, some, none, [], ◌∷◌, map, replicate, ◌||◌, ◌==◌, if◌then◌else◌,
}
use tiny_processors.Emulator.Memory.{bytes_read, read_loop}
use tiny_processors.Os.Fs.Directory.{word_at}
use tiny_processors.Os.Fs.Data.{count}
use tiny_processors.Os.Kernel.{OpenFile, Proc, Program, ready, no_proc, no_file, o_read}
use tiny_processors.Os.Kernel.Memory.{user_range, string_loop, entry_ok}
use tiny_processors.Os.Kernel.Files.{open_file_of, seek_to, seek_file}
use tiny_processors.Os.Kernel.Paging.{table_at, word}
use tiny_processors.Os.Kernel.Process.{
  fdt_same, program_named, text_of, program_at, is_count, is_ramdisk, is_runnable, prepare_memory,
  fold_loop, fold_name, find_pid, another_drives, palette_loop,
}
use tiny_processors.Os.Kernel.Schedule.{ask_console, ask_time, any_drives}
use tiny_processors.Os.Kernel.Fpu.{floating_instruction, another_floats}
use tiny_processors.Os.Kernel.Calls.Filing.{free_file, put_loop}
use tiny_processors.Os.Kernel.Calls.Processes.{
  digit_loop, kdecimal, first_bytes, state_name, ps_line, put_string, child_pid,
}
use tiny_processors.Os.Kernel.Trap.{trapped_instruction}
use tiny_processors.Os.Kernel.Bounds.{IsNamed, user_range-IsNamed}
use tiny_processors.Os.Kernel.Samples.{broken_disk, quiet_board, plain_config, kernel}

-- A word below the guard page of a process in the first slot.
user_range-IsNamed_example :
    (user_range 0x8010_0000 0x2_0000 0x8011_c000 0x8011_bffc 4 ≡ true
      → IsNamed 0x8010_0000 0x2_0000 0x8011_c000 0x8011_bffc 4)
    × (IsNamed 0x8010_0000 0x2_0000 0x8011_c000 0x8011_bffc 4
        → user_range 0x8010_0000 0x2_0000 0x8011_c000 0x8011_bffc 4 ≡ true)
user_range-IsNamed_example = user_range-IsNamed 0x8010_0000 0x2_0000 0x8011_c000 0x8011_bffc 4

abbrev reading : OpenFile
reading = record { mode = o_read; file = 0; position = 40 }

-- Ten bytes back from byte 40 of a file of 100 bytes.
seeks_back : seek_file reading 100 0xffff_fff6 1 ≡ some 30
unfolding seek_file seek_to
seeks_back = refl

-- FNV-1a of "a".
folds_a : fold_name (97 ∷ []) ≡ 0xe40c_292c
unfolding fold_name fold_loop
folds_a = refl

abbrev shell : Proc
shell = record no_proc { name = 115 ∷ 104 ∷ 0 ∷ []; state = ready; pid = 12 }

-- "sh ready 12"
lists_shell : ps_line shell ≡ 115 ∷ 104 ∷ 32 ∷ 114 ∷ 101 ∷ 97 ∷ 100 ∷ 121 ∷ 32 ∷ 49 ∷ 50 ∷ []
unfolding ps_line first_bytes text_of state_name kdecimal digit_loop
lists_shell = refl

-- FLW, an access of fcsr, and ADDI.
floats : map floating_instruction (0x2007 ∷ 0x0030_1073 ∷ 0x13 ∷ []) ≡ true ∷ true ∷ false ∷ []
unfolding floating_instruction
floats = refl

abbrev clock : Program
clock = record {
  name = 99 ∷ replicate 23 0;
  load = 0x8014_0000;
  entry = 0x8014_0000;
  file_size = 8;
  memory_size = 16;
  offset = 0;
  flags = 0;
  span = 0x2_0000;
  stack = 0x8000;
}

clock_runs : is_runnable (99 ∷ []) 100 clock ≡ true
unfolding is_runnable entry_ok fdt_same
clock_runs = refl

clock_named : program_named (99 ∷ 0 ∷ []) (clock ∷ []) ≡ some clock
unfolding program_named fdt_same
clock_named = refl

no_header : is_ramdisk (λ at. 0) ≡ false
unfolding is_ramdisk word_at
no_header = refl

loads_high : (program_at (λ at. at)).load ≡ 0x1b1a_1918
unfolding program_at word_at
loads_high = refl

all_read : is_count 56 (count 56) ≡ true
unfolding is_count
all_read = refl

-- The arguments "x" lie below the top of the slots, and the image's end is cleared.
arguments_put :
    prepare_memory clock (120 ∷ []) (λ at. 7) 0x8015_ffc0
      ∷ prepare_memory clock (120 ∷ []) (λ at. 7) 0x8014_0008
      ∷ []
    ≡ 120 ∷ 0 ∷ []
unfolding prepare_memory
arguments_put = refl

finds_second : find_pid 2 kernel.procs 0 none ≡ some 1
unfolding find_pid
finds_second = refl

none_drives :
    another_drives 0 0 kernel.procs || any_drives kernel.procs || another_floats 0 0 kernel.procs
    ≡ false
unfolding another_drives any_drives another_floats
none_drives = refl

descriptor : open_file_of (record no_proc { files = reading ∷ [] }) 3 o_read ≡ some 0
unfolding open_file_of
descriptor = refl

second_descriptor : free_file (reading ∷ no_file ∷ []) 0 ≡ some 1
unfolding free_file
second_descriptor = refl

-- A string that ends below the guard page.
reads_string :
    string_loop 4 0x8010_0000 0x2_0000 0x8011_c000
      (λ at. if at == 0x8010_0001 then 0 else 65)
      0x8010_0000
    ≡ some (65 ∷ [])
unfolding string_loop user_range
reads_string = refl

puts_string : put_string 100 (65 ∷ []) (λ at. 7) 101 ≡ 0
unfolding put_string
puts_string = refl

first_table : table_at plain_config 1 0 ≡ 0x8008_7000
unfolding table_at
first_table = refl

empty_word : word 0x8008_0000 kernel ≡ 0
unfolding word bytes_read read_loop
empty_word = refl

asks_once : (ask_console quiet_board (record { console = some true; now = 0; board = tt })).0 ≡ true
unfolding ask_console
asks_once = refl

sleeps_on : (ask_time quiet_board 5 (record { console = none; now = 4; board = tt })).0 ≡ false
unfolding ask_time
sleeps_on = refl

silent :
    put_loop broken_disk quiet_board 2 0 (λ at. 65) (palette_loop quiet_board 2 0 (λ i. i) tt) ≡ tt
unfolding put_loop palette_loop
silent = refl

pid_of_second : child_pid (some 1) kernel ≡ 2
unfolding child_pid
pid_of_second = refl

told : trapped_instruction quiet_board 0 0x2007 kernel ≡ 0x2007
unfolding trapped_instruction
told = refl
