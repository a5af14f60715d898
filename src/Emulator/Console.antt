-- ===== src/Emulator/Console.antt =====
-- The console of tools/rv32emu_core.c: `console_poll_stdin`, `console_rx_waiting`,
-- `console_watch_prompt`, `console_load` and `console_store`. What the host's stdin gives is a list of
-- arrivals, one for each time it is asked, and what goes to stdout is kept in `sent`.
mod Tests
pub mod Gate
use tiny_processors.Prelude.{
  ℕ, suc, ◌+◌, ◌%◌, ◌^◌, ◌<◌, Bool, true, false, not, ◌&&◌, ◌||◌, List, [], ◌∷◌, ◌++◌, ltb, ◌==◌,
  ◌!=◌, if◌then◌else◌, bit_and, bit_or, get_or, length,
}
use tiny_processors.Prelude.Bits.{has}
use tiny_processors.Emulator.Access.{Access, acc_ok, acc_fault}

abbrev pub console_lcr_dlab : ℕ
console_lcr_dlab = 0x80

abbrev pub console_ier_mask : ℕ
console_ier_mask = 0x0f

abbrev pub console_mcr_mask : ℕ
console_mcr_mask = 0x1f

abbrev pub console_ier_rdi : ℕ
console_ier_rdi = 0x01

abbrev pub console_ier_thri : ℕ
console_ier_thri = 0x02

-- What one poll and read of stdin find: no input yet, bytes, or the end.
pub data Arrival : Type 0 where
  nothing : Arrival
  bytes : ℕ → List ℕ → Arrival
  ended : Arrival

pub record Console : Type 0 where
  pub input : List ℕ
  pub in_next : ℕ
  pub stdin : Bool
  pub arrivals : List Arrival
  pub ier : ℕ
  pub lcr : ℕ
  pub mcr : ℕ
  pub scr : ℕ
  pub dll : ℕ
  pub dlm : ℕ
  pub latched : ℕ
  pub prompt : List ℕ
  pub tail : List ℕ
  pub tail_len : ℕ
  pub prompts_seen : ℕ
  pub lines_taken : ℕ
  pub sent : List ℕ

-- The read of stdin.
pub take_arrival : List Arrival → Console → Console
take_arrival [] c = c
take_arrival (nothing ∷ rest) c = record c { arrivals = rest }
take_arrival (bytes b bs ∷ rest) c = record c { arrivals = rest; input = b ∷ bs; in_next = 0 }
take_arrival (ended ∷ rest) c = record c { arrivals = rest; stdin = false }

pub console_poll_stdin : Console → Console
console_poll_stdin c =
    if not c.stdin || ltb c.in_next (length c.input) then c else take_arrival c.arrivals c

-- Whether a byte waits, once stdin has been polled.
pub is_waiting : Console → Bool
is_waiting c =
    ltb c.in_next (length c.input) && (length c.prompt == 0 || ltb c.lines_taken c.prompts_seen)

pub console_rx_waiting : Console → Bool × Console
console_rx_waiting c = let polled = console_poll_stdin c in (is_waiting polled, polled)

-- `memcmp(a, b, n) == 0`, of lists of one length.
pub same_bytes : List ℕ → List ℕ → Bool
same_bytes [] ys = true
same_bytes (x ∷ xs) [] = false
same_bytes (x ∷ xs) (y ∷ ys) = x == y && same_bytes xs ys

pub without_first : List ℕ → List ℕ
without_first [] = []
without_first (x ∷ xs) = xs

-- `tail` holds as many bytes as the prompt.
pub console_watch_prompt : ℕ → Console → Console
console_watch_prompt byte c =
    let n = length c.prompt in
    let tail = without_first c.tail ++ byte ∷ [] in
    let tail_len = if ltb c.tail_len n then c.tail_len + 1 else c.tail_len in
    record c {
      tail = tail;
      tail_len = tail_len;
      prompts_seen =
          if tail_len == n && same_bytes tail c.prompt then c.prompts_seen + 1 else c.prompts_seen;
    }

-- A read of RBR.
pub receive : Console → ℕ × Console
receive c =
    let polled = console_poll_stdin c in
    let b = get_or polled.input polled.in_next 0 in
    if is_waiting polled
    then (
      b,
      record polled {
        in_next = polled.in_next + 1;
        lines_taken = polled.lines_taken + (if b == 10 then 1 else 0);
      },
    )
    else (0, polled)

-- A read of IIR, whether a byte waits: only asked where its interrupt is enabled.
pub identify : Console → ℕ × Console
identify c =
    let polled = console_poll_stdin c in
    if has c.ier console_ier_rdi
    then (
      if is_waiting polled then 0x04 else if has c.ier console_ier_thri then 0x02 else 0x01,
      polled,
    )
    else (if has c.ier console_ier_thri then 0x02 else 0x01, c)

pub console_load : ℕ → ℕ → Console → Access (ℕ × Console)
console_load offset width c =
    let dlab = has c.lcr console_lcr_dlab in
    if width != 1
    then acc_fault
    else if offset == 0
    then if dlab then acc_ok (c.dll, record c { latched = c.latched + 1 }) else acc_ok (receive c)
    else if offset == 1
    then acc_ok (if dlab then c.dlm else c.ier, c)
    else if offset == 2
    then acc_ok (identify c)
    else if offset == 3
    then acc_ok (c.lcr, c)
    else if offset == 4
    then acc_ok (c.mcr, c)
    else if offset == 5
    then acc_ok
        (bit_or 0x60 (if is_waiting (console_poll_stdin c) then 1 else 0), console_poll_stdin c)
    else if offset == 6
    then acc_ok (0xb0, c)
    else if offset == 7
    then acc_ok (c.scr, c)
    else acc_fault

-- A write of THR.
pub transmit : ℕ → Console → Console
transmit byte c =
    let out = record c { sent = c.sent ++ byte ∷ [] } in
    if length c.prompt != 0 then console_watch_prompt byte out else out

pub console_store : ℕ → ℕ → ℕ → Console → Access Console
console_store offset width value c =
    let dlab = has c.lcr console_lcr_dlab in
    let byte = value % 2 ^ 8 in
    if width != 1
    then acc_fault
    else if offset == 0
    then acc_ok (if dlab then record c { dll = byte; latched = c.latched + 1 } else transmit byte c)
    else if offset == 1
    then acc_ok
        (if dlab then record c { dlm = byte } else record c { ier = bit_and byte console_ier_mask })
    else if offset == 2
    then acc_ok c
    else if offset == 3
    then acc_ok (record c {
      latched = if has byte console_lcr_dlab && not dlab then 0 else c.latched;
      lcr = byte;
    })
    else if offset == 4
    then acc_ok (record c { mcr = bit_and byte console_mcr_mask })
    else if offset == 7
    then acc_ok (record c { scr = byte })
    else acc_fault
