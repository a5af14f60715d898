-- ===== src/Os/Line/Returns.antt =====
-- The line editor returns once Enter has been read.
use tiny_processors.Prelude.{ℕ, ◌≡◌, refl, Bool, List, [], ◌∷◌, ◌++◌, Option, some}
use tiny_processors.Os.Line.{
  Reading, failed, no_byte, byte, Editor, Round, continues, breaks, returns, edit_byte, Edited,
  finish, after_round, edit_loop, line_edit,
}

pub record Gives (o : Option Edited) : Type 0 where
  pub edited : Edited
  pub given : o ≡ some edited

after_round-Gives :
    (rest : Editor → Option Edited) (r : Round)
    → ((e : Editor) → Gives (rest e))
    → Gives (after_round rest r)
unfolding after_round
after_round-Gives rest (continues e) later = later e
after_round-Gives rest (breaks e) later = record { edited = finish e; given = refl }
after_round-Gives rest (returns r e) later = record { edited = _; given = refl }

edit_loop-Gives :
    (at_eof : Bool) (room : ℕ) (rs later : List Reading) (e : Editor)
    → Gives (edit_loop at_eof room (rs ++ byte 13 ∷ later) e)
unfolding edit_loop edit_byte after_round
edit_loop-Gives at_eof room [] later e = record { edited = _; given = refl }
edit_loop-Gives at_eof room (failed ∷ rs) later e = record { edited = _; given = refl }
edit_loop-Gives at_eof room (no_byte ∷ rs) later e = edit_loop-Gives at_eof room rs later e
edit_loop-Gives at_eof room (byte c ∷ rs) later e =
    after_round-Gives (λ e'. edit_loop at_eof room (rs ++ byte 13 ∷ later) e')
      (edit_byte at_eof room c e) (λ e'. edit_loop-Gives at_eof room rs later e')

-- Whatever readings come before, and in whatever state of an escape sequence they leave the
-- editor, `line_edit` returns at the latest at an Enter read as a carriage return.
pub line_edit-Gives :
    (at_eof : Bool) (room previous : ℕ) (line : List ℕ) (rs later : List Reading)
    → Gives (line_edit at_eof room previous line (rs ++ byte 13 ∷ later))
unfolding line_edit
line_edit-Gives at_eof room previous line rs later = edit_loop-Gives at_eof room rs later _
