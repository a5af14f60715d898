-- ===== src/Os/Line/Tests.antt =====
-- The line editor on concrete input.
use tiny_processors.Prelude.{
  ℕ, ◌≡◌, arith, refl, true, false, [], ◌∷◌, ◌++◌, List, map, some, replicate,
}
use tiny_processors.Os.Line.{
  Reading, byte, Edited, line_edit, edit_loop, after_round, edit_byte, inner_byte, text_byte, echo,
  rub_out, finish, line_too_long, text,
}
use tiny_processors.Os.Line.Bounds.{IsSafe, line_edit-IsSafe}
use tiny_processors.Os.Line.Returns.{Gives, line_edit-Gives}
use tiny_processors.Os.Line.Typing.{IsTyped, line_edit-IsTyped, all_printable}

-- "ab", Backspace, "cd" and Enter, in a line with room for two characters.
abbrev keys : List Reading
keys = byte 97 ∷ byte 98 ∷ byte 0x7f ∷ byte 99 ∷ byte 100 ∷ byte 10 ∷ []

abbrev buffer : List ℕ
buffer = replicate 4 0

abbrev refused : Edited
refused = record {
  result = line_too_long;
  length = some 0;
  editor = record {
    escape = text;
    line = 97 ∷ 99 ∷ 0 ∷ 0 ∷ [];
    n = 2;
    fits = false;
    previous = 10;
    echoed = 97 ∷ 98 ∷ 8 ∷ 32 ∷ 8 ∷ 99 ∷ 7 ∷ 10 ∷ [];
  };
}

refuses : line_edit true 2 0 buffer keys ≡ some refused
unfolding line_edit edit_loop after_round edit_byte inner_byte text_byte echo rub_out finish
refuses = refl

line_edit-IsSafe_example : IsSafe 2 buffer refused
line_edit-IsSafe_example = line_edit-IsSafe true 2 0 buffer keys refused (omega arith) refuses

hello_is_printable : all_printable (104 ∷ 105 ∷ []) ≡ true
unfolding all_printable
hello_is_printable = refl

line_edit-IsTyped_example :
    IsTyped
      (104 ∷ 105 ∷ [])
      (line_edit true 2 13 buffer (map byte (104 ∷ 105 ∷ []) ++ byte 13 ∷ []))
line_edit-IsTyped_example =
    line_edit-IsTyped true 2 13 buffer (104 ∷ 105 ∷ []) [] (omega arith) (omega arith)
      hello_is_printable

-- An escape sequence that Enter cuts off.
line_edit-Gives_example :
    Gives (line_edit false 2 0 buffer (byte 0x1b ∷ byte 0x5b ∷ [] ++ byte 13 ∷ []))
line_edit-Gives_example = line_edit-Gives false 2 0 buffer (byte 0x1b ∷ byte 0x5b ∷ []) []
