-- ===== src/Emulator/Console/Tests.antt =====
-- A guest that prints its prompt and reads a byte of the line behind it.
use tiny_processors.Prelude.{◌≡◌, refl, arith, inr, false, [], ◌∷◌}
use tiny_processors.Emulator.Access.{acc_ok}
use tiny_processors.Emulator.Console.{
  Console, console_load, console_store, receive, console_poll_stdin, is_waiting, console_rx_waiting,
  transmit, console_watch_prompt, same_bytes, without_first, take_arrival,
}
use tiny_processors.Emulator.Console.Gate.{IsValid, ConsoleReach, load, store, ConsoleReach-IsValid}

-- A host line `a`, behind the prompt `$ `.
abbrev gated_console : Console
gated_console = record {
  input = 97 ∷ 10 ∷ [];
  in_next = 0;
  stdin = false;
  arrivals = [];
  ier = 0;
  lcr = 0;
  mcr = 0;
  scr = 0;
  dll = 0;
  dlm = 0;
  latched = 0;
  prompt = 36 ∷ 32 ∷ [];
  tail = 0 ∷ 0 ∷ [];
  tail_len = 0;
  prompts_seen = 0;
  lines_taken = 0;
  sent = [];
}

gated_console-IsValid : IsValid gated_console
gated_console-IsValid = record {
  in_range = omega arith;
  gated = inr (omega arith);
  tail_size = refl;
  tail_le = omega arith;
  ier_lt = omega arith;
  mcr_lt = omega arith;
}

abbrev asked : Console
asked = record gated_console { tail = 0 ∷ 36 ∷ []; tail_len = 1; sent = 36 ∷ [] }

abbrev prompted : Console
prompted = record asked { tail = 36 ∷ 32 ∷ []; tail_len = 2; prompts_seen = 1; sent = 36 ∷ 32 ∷ [] }

abbrev reading : Console
reading = record prompted { in_next = 1 }

sent_one : console_store 0 1 36 gated_console ≡ acc_ok asked
unfolding console_store transmit console_watch_prompt same_bytes without_first
sent_one = refl

sent_two : console_store 0 1 32 asked ≡ acc_ok prompted
unfolding console_store transmit console_watch_prompt same_bytes without_first
sent_two = refl

read_one : console_load 0 1 prompted ≡ acc_ok (97, reading)
unfolding console_load receive console_poll_stdin is_waiting console_rx_waiting take_arrival
read_one = refl

session : ConsoleReach gated_console reading
session =
    ConsoleReach.next
      (ConsoleReach.next (ConsoleReach.next ConsoleReach.here (store 0 1 36 sent_one))
        (store 0 1 32 sent_two))
      (load 0 1 97 read_one)

ConsoleReach-IsValid_example : IsValid reading
ConsoleReach-IsValid_example = ConsoleReach-IsValid session gated_console-IsValid
