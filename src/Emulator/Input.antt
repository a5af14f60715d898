-- ===== src/Emulator/Input.antt =====
-- The input device of tools/rv32emu_core.c: `emu_queue_event`, `emu_deliver_events` and
-- `input_load`. The record file and the message about a dropped event are output only, and are
-- left out.
mod Tests
pub mod Fifo
pub mod Delivery
use tiny_processors.Prelude.{
  ℕ, zero, suc, ◌+◌, ◌-◌, ◌%◌, ◌^◌, Bool, ◌&&◌, List, [], ◌∷◌, leb, ltb, ◌==◌, ◌!=◌, if◌then◌else◌,
  bit_and, bit_or, get_or, set, length,
}
use tiny_processors.Prelude.Bits.{flip, has}
use tiny_processors.Emulator.Access.{Access, acc_ok, acc_fault}

abbrev pub input_queue : ℕ
input_queue = 16

abbrev pub event_press : ℕ
event_press = 0x100

pub record ScriptedEvent : Type 0 where
  pub frame : ℕ
  pub event : ℕ

pub record Input : Type 0 where
  pub queue : List ℕ
  pub head : ℕ
  pub count : ℕ
  pub keys : ℕ
  pub script : List ScriptedEvent
  pub next_scripted : ℕ
  pub dropped : ℕ

-- `1u << (event & 31u)`, set by a press and cleared by a release.
pub key_bit : ℕ → ℕ
key_bit event = 2 ^ bit_and event 31

pub emu_queue_event : ℕ → Input → Input
unfolding key_bit
emu_queue_event event m =
    if m.count == input_queue then record m { dropped = m.dropped + 1 } else record m {
      queue = set m.queue ((m.head + m.count) % input_queue) event;
      count = m.count + 1;
      keys =
          if has event event_press
          then bit_or m.keys (key_bit event)
          else bit_and m.keys (flip 32 (key_bit event));
    }

abbrev no_event : ScriptedEvent
no_event = record { frame = 0; event = 0 }

-- The `while` of `emu_deliver_events`, by the rounds that the script allows.
pub deliver_loop : ℕ → ℕ → Input → Input
deliver_loop frames zero m = m
deliver_loop frames (suc left) m =
    let e = get_or m.script m.next_scripted no_event in
    let rest =
      deliver_loop frames left
        (record (emu_queue_event e.event m) { next_scripted = m.next_scripted + 1 }) in
    if ltb m.next_scripted (length m.script) && leb e.frame frames then rest else m

-- Each round uses up one line of the script.
pub emu_deliver_events : ℕ → Input → Input
emu_deliver_events frames m = deliver_loop frames (length m.script - m.next_scripted) m

pub input_load : ℕ → ℕ → Input → Access (ℕ × Input)
input_load offset width m =
    if width != 4
    then acc_fault
    else if offset == 0
    then if m.count == 0
      then acc_ok (0, m)
      else acc_ok (
        get_or m.queue m.head 0,
        record m { head = (m.head + 1) % input_queue; count = m.count - 1 },
      )
    else if offset == 4
    then acc_ok (m.count, m)
    else if offset == 8
    then acc_ok (m.keys, m)
    else acc_fault
