-- ===== src/Emulator/Console/Gate.antt =====
-- The gate of `--console-prompt`: what every sequence of loads and stores keeps of the console.
use tiny_processors.Prelude.{
  ℕ, ◌+◌, ◌≤◌, ◌<◌, ◌≡◌, ◌⊎◌, inl, inr, arith, List, [], ◌∷◌, ◌++◌, length, length-append, bit_and,
  not, ◌&&◌, ◌%◌, ◌^◌, if◌then◌else◌, ◌!=◌, Bool-cases,
}
use tiny_processors.Prelude.Bits.{has, bit_and-lt_right}
use tiny_processors.Emulator.Access.{acc_ok, OnOk, on_ok}
use tiny_processors.Emulator.Console.{
  Console, Arrival, nothing, bytes, ended, take_arrival, console_poll_stdin, is_waiting,
  without_first, console_watch_prompt, receive, identify, transmit, console_load, console_store,
  console_ier_mask, console_mcr_mask, console_lcr_dlab,
}

-- Input is taken in range, and with a prompt no line is taken before its prompt has been sent; the tail is as
-- long as the prompt; IER has four bits and MCR five.
pub record IsValid (c : Console) : Type 0 where
  pub in_range : c.in_next ≤ length c.input
  pub gated : (length c.prompt ≡ 0) ⊎ (c.lines_taken ≤ c.prompts_seen)
  pub tail_size : length c.tail ≡ length c.prompt
  pub tail_le : c.tail_len ≤ length c.prompt
  pub ier_lt : c.ier < 16
  pub mcr_lt : c.mcr < 32

take_arrival-IsValid :
    (found : List Arrival) (c : Console) → IsValid c → IsValid (take_arrival found c)
unfolding take_arrival
take_arrival-IsValid [] c v = v
take_arrival-IsValid (nothing ∷ rest) c v = ground arith
take_arrival-IsValid (bytes b bs ∷ rest) c v = ground arith
take_arrival-IsValid (ended ∷ rest) c v = ground arith

poll-IsValid : (c : Console) → IsValid c → IsValid (console_poll_stdin c)
unfolding console_poll_stdin
poll-IsValid c v = ground (arith, take_arrival-IsValid c.arrivals c)

receive-IsValid : (c : Console) → IsValid c → IsValid (receive c).1
unfolding receive is_waiting
receive-IsValid c v = ground (arith, poll-IsValid c)

identify-IsValid : (c : Console) → IsValid c → IsValid (identify c).1
unfolding identify
identify-IsValid c v = ground (arith, poll-IsValid c)

pub console_load-IsValid :
    (offset width : ℕ) (c : Console)
    → IsValid c
    → OnOk (λ (r : ℕ × Console). IsValid r.1) (console_load offset width c)
unfolding console_load
console_load-IsValid offset width c v =
    search (on_ok, poll-IsValid c v, receive-IsValid c v, identify-IsValid c v, latch) depth 16
  where
    latch : IsValid (record c { latched = c.latched + 1 })
    latch = ground arith

length-without_first : (xs : List ℕ) → 0 < length xs → length (without_first xs) + 1 ≡ length xs
unfolding without_first
length-without_first [] h = elim h [ ]
length-without_first (x ∷ xs) h = omega arith

watch-IsValid :
    (byte : ℕ) (c : Console)
    → 0 < length c.prompt
    → IsValid c
    → IsValid (console_watch_prompt byte c)
unfolding console_watch_prompt
watch-IsValid byte c h v =
    ground (arith, length-without_first c.tail, length-append (without_first c.tail) (byte ∷ []))

transmit-IsValid : (byte : ℕ) (c : Console) → IsValid c → IsValid (transmit byte c)
unfolding transmit
transmit-IsValid byte c v = elim (Bool-cases (length c.prompt != 0)) [
  | inl gate ↦
      rw gate
        (watch-IsValid byte (record c { sent = c.sent ++ byte ∷ [] }) (ground arith) (ground arith))
  | inr open_gate ↦ rw open_gate (ground arith)
]

pub console_store-IsValid :
    (offset width value : ℕ) (c : Console)
    → IsValid c
    → OnOk IsValid (console_store offset width value c)
unfolding console_store
console_store-IsValid offset width value c v = search (on_ok, v, thr, ier, lcr, mcr, scr) depth 16
  where
    thr : IsValid (
        if has c.lcr console_lcr_dlab
        then record c { dll = value % 2 ^ 8; latched = c.latched + 1 }
        else transmit (value % 2 ^ 8) c)
    thr = ground (arith, transmit-IsValid (value % 2 ^ 8) c)

    ier : IsValid (
        if has c.lcr console_lcr_dlab
        then record c { dlm = value % 2 ^ 8 }
        else record c { ier = bit_and (value % 2 ^ 8) console_ier_mask })
    ier = ground (arith, bit_and-lt_right 4 (value % 2 ^ 8) console_ier_mask)

    lcr : IsValid (record c {
      latched =
          if has (value % 2 ^ 8) console_lcr_dlab && not (has c.lcr console_lcr_dlab)
          then 0
          else c.latched;
      lcr = value % 2 ^ 8;
    })
    lcr = ground arith

    mcr : IsValid (record c { mcr = bit_and (value % 2 ^ 8) console_mcr_mask })
    mcr = ground (arith, bit_and-lt_right 5 (value % 2 ^ 8) console_mcr_mask)

    scr : IsValid (record c { scr = value % 2 ^ 8 })
    scr = ground arith

-- What the guest and the host do with the console.
pub data ConsoleStep (c d : Console) : Type 0 where
  load :
      (offset width value : ℕ) → console_load offset width c ≡ acc_ok (value, d) → ConsoleStep c d
  store : (offset width value : ℕ) → console_store offset width value c ≡ acc_ok d → ConsoleStep c d

pub data ConsoleReach (c : Console) : Console → Type 0 where
  here : ConsoleReach c c
  next : {d e : Console} → ConsoleReach c d → ConsoleStep d e → ConsoleReach c e

ConsoleStep-IsValid : {c d : Console} → ConsoleStep c d → IsValid c → IsValid d
ConsoleStep-IsValid {c} (load offset width value e) v =
    (console_load-IsValid offset width c v).at _ e
ConsoleStep-IsValid {c} (store offset width value e) v =
    (console_store-IsValid offset width value c v).at _ e

-- Every sequence of loads and stores keeps a valid console valid: input is taken within its
-- bounds, with a prompt no more lines have been taken than prompts have been sent, the tail is as
-- long as the prompt and no more of it is filled, IER is below 16 and MCR below 32.
pub ConsoleReach-IsValid : {c d : Console} → ConsoleReach c d → IsValid c → IsValid d
ConsoleReach-IsValid here v = v
ConsoleReach-IsValid (next r s) v = ConsoleStep-IsValid s (ConsoleReach-IsValid r v)
