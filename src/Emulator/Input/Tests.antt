-- ===== src/Emulator/Input/Tests.antt =====
-- The input device on concrete states.
use tiny_processors.Prelude.{◌≡◌, arith, refl, replicate, List, [], ◌∷◌}
use tiny_processors.Emulator.Input.{Input}
use tiny_processors.Emulator.Input.Fifo.{
  IsValid, Op, arrival, read_event, run, run_list, waiting, run-refines,
}

-- One event waits in the last slot of the ring, and two lines of the script are left.
abbrev wrapping : Input
wrapping = record {
  queue = replicate 16 0x105;
  head = 15;
  count = 1;
  keys = 0x20;
  script = record { frame = 1; event = 5 } ∷ record { frame = 2; event = 0x106 } ∷ [];
  next_scripted = 0;
  dropped = 0;
}

wrapping-IsValid : IsValid wrapping
wrapping-IsValid = record { slots = refl; head_lt = omega arith; count_le = omega arith }

abbrev history : List Op
history = arrival 0x107 ∷ read_event ∷ read_event ∷ read_event ∷ []

run-refines_example :
    ((run history wrapping).0 ≡ (run_list history (waiting wrapping)).0)
    × (waiting (run history wrapping).1 ≡ (run_list history (waiting wrapping)).1)
run-refines_example = run-refines history wrapping wrapping-IsValid
