-- ===== src/Os/Line.antt =====
-- The line editor `line_edit` of programs/rv32/os/line.c. What `sys_read` returns is a list of readings, and
-- the bytes that `sys_write` gets are kept in `echoed`.
pub mod Bounds
pub mod Returns
pub mod Typing
mod Tests
use tiny_processors.Prelude.{
  ℕ, zero, suc, ◌+◌, ◌-◌, Bool, true, false, not, ◌&&◌, ◌||◌, List, [], ◌∷◌, ◌++◌, Option, none,
  some, leb, ltb, ◌==◌, ◌!=◌, if◌then◌else◌, set,
}
use tiny_processors.Prelude.Bits.{has}

pub data Escape : Type 0 where
  text after_esc sequence : Escape

pub data LineResult : Type 0 where
  line_error line_end line_ok line_too_long : LineResult

-- What `sys_read` of one byte returns: SYS_ERROR, no byte, or one.
pub data Reading : Type 0 where
  failed no_byte : Reading
  byte : ℕ → Reading

-- The variables of `line_edit`, with the caller's buffer, the last byte read and the output.
pub record Editor : Type 0 where
  pub escape : Escape
  pub line : List ℕ
  pub n : ℕ
  pub fits : Bool
  pub previous : ℕ
  pub echoed : List ℕ

-- A byte leaves the loop going, ends the line, or returns.
pub data Round : Type 0 where
  continues breaks : Editor → Round
  returns : LineResult → Editor → Round

pub echo : List ℕ → Editor → Editor
echo s e = record e { echoed = e.echoed ++ s }

pub rub_out : ℕ → Editor → Editor
rub_out zero e = e
rub_out (suc count) e = rub_out count (echo (8 ∷ 32 ∷ 8 ∷ []) e)

-- A byte outside an escape sequence. `at_eof` is the flag LINE_EOF.
pub text_byte : Bool → ℕ → ℕ → Editor → Round
text_byte at_eof room c e =
    if c == 0x04 && at_eof && e.n == 0 && e.fits
    then returns line_end e
    else if c == 0x7f || c == 0x08
    then continues (if e.n != 0 then rub_out 1 (record e { n = e.n - 1 }) else e)
    else if c == 0x15
    then continues (record (rub_out e.n e) { n = 0; fits = true })
    else if c == 0x1b
    then continues (record e { escape = after_esc })
    else if ltb c 0x20 || ltb 0x7e c
    then continues (echo (7 ∷ []) e)
    else if ltb e.n room
    then continues (echo (c ∷ []) (record e { line = set e.line e.n c; n = e.n + 1 }))
    else continues (echo (7 ∷ []) (record e { fits = false }))

pub escape_byte : ℕ → Escape
escape_byte c = if c == 0x5b || c == 0x4f then sequence else if c == 0x1b then after_esc else text

pub sequence_byte : ℕ → Escape
sequence_byte c = if leb 0x40 c && leb c 0x7e && c != 0x5b then text else sequence

-- A byte that is no newline, by where the editor stands in an escape sequence.
pub inner_byte : Escape → Bool → ℕ → ℕ → Editor → Round
inner_byte text at_eof room c e = text_byte at_eof room (if c == 9 then 32 else c) e
inner_byte after_esc at_eof room c e = continues (record e { escape = escape_byte c })
inner_byte sequence at_eof room c e = continues (record e { escape = sequence_byte c })

pub edit_byte : Bool → ℕ → ℕ → Editor → Round
edit_byte at_eof room c e =
    let seen = record e { previous = c } in
    if c == 10 && e.previous == 13
    then continues seen
    else if c == 13 || c == 10
    then breaks seen
    else inner_byte e.escape at_eof room c seen

-- What `line_edit` returns, the length that it stores, and the variables at its end.
pub record Edited : Type 0 where
  pub result : LineResult
  pub length : Option ℕ
  pub editor : Editor

pub finish : Editor → Edited
finish e = record {
  result = if e.fits then line_ok else line_too_long;
  length = some (if e.fits then e.n else 0);
  editor = echo (10 ∷ []) e;
}

-- What follows a round: the loop goes on with `rest`, or `line_edit` returns.
pub after_round : (Editor → Option Edited) → Round → Option Edited
after_round rest (continues e) = rest e
after_round rest (breaks e) = some (finish e)
after_round rest (returns r e) = some (record { result = r; length = none; editor = e })

-- The loop; `none` waits for more readings.
pub edit_loop : Bool → ℕ → List Reading → Editor → Option Edited
edit_loop at_eof room [] e = none
edit_loop at_eof room (failed ∷ rs) e =
    some (record { result = line_error; length = none; editor = e })
edit_loop at_eof room (no_byte ∷ rs) e = edit_loop at_eof room rs e
edit_loop at_eof room (byte c ∷ rs) e =
    after_round (λ e'. edit_loop at_eof room rs e') (edit_byte at_eof room c e)

pub line_edit : Bool → ℕ → ℕ → List ℕ → List Reading → Option Edited
line_edit at_eof room previous line rs =
    edit_loop at_eof room rs
      (record { escape = text; line = line; n = 0; fits = true; previous = previous; echoed = [] })
