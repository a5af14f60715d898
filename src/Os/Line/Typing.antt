-- ===== src/Os/Line/Typing.antt =====
-- Plain typing reaches the caller as it was typed.
use tiny_processors.Prelude.{
  ℕ, zero, suc, ◌+◌, ◌<◌, ◌≤◌, ◌≡◌, refl, ◌∙◌, subst, arith, Bool, true, ◌&&◌, List, [], ◌∷◌, ◌++◌,
  map, Option, some, leb, set, get_or, length, length-set, get_or-set_ne, get_or-set_self,
}
use tiny_processors.Os.Line.{
  text, Reading, byte, Editor, continues, echo, text_byte, line_ok, edit_byte, inner_byte, Edited,
  finish, edit_loop, line_edit, after_round,
}

abbrev pub is_printable : ℕ → Bool
is_printable c = leb 0x20 c && leb c 0x7e

-- A printable character where the line has room.
after_key : ℕ → Editor → Editor
after_key c e = record e {
  previous = c;
  line = set e.line e.n c;
  n = e.n + 1;
  echoed = e.echoed ++ c ∷ [];
}

text_byte-printable :
    (at_eof : Bool) (room c : ℕ) (e : Editor)
    → is_printable c ≡ true
    → e.n < room
    → text_byte at_eof room c (record e { previous = c }) ≡ continues (after_key c e)
unfolding text_byte echo after_key
text_byte-printable at_eof room c e p fits = ground arith

edit_byte-printable :
    (at_eof : Bool) (room c : ℕ) (e : Editor)
    → is_printable c ≡ true
    → e.escape ≡ text
    → e.n < room
    → edit_byte at_eof room c e ≡ continues (after_key c e)
unfolding edit_byte inner_byte
edit_byte-printable at_eof room c e p plain fits =
    rw plain (ground (arith, text_byte-printable at_eof room c (record e { escape = text }) p fits))

after_keys : List ℕ → Editor → Editor
after_keys [] e = e
after_keys (c ∷ cs) e = after_keys cs (after_key c e)

unfoldable pub all_printable : List ℕ → Bool
all_printable [] = true
all_printable (c ∷ cs) = is_printable c && all_printable cs

edit_loop-keys :
    (at_eof : Bool) (room : ℕ) (cs : List ℕ) (rs : List Reading) (e : Editor)
    → all_printable cs ≡ true
    → e.escape ≡ text
    → e.n + length cs ≤ room
    → edit_loop at_eof room (map byte cs ++ rs) e ≡ edit_loop at_eof room rs (after_keys cs e)
unfolding edit_loop after_keys all_printable after_round after_key
edit_loop-keys at_eof room [] rs e p plain fits = refl
edit_loop-keys at_eof room (c ∷ cs) rs e p plain fits =
    rw (edit_byte-printable at_eof room c e (ground arith) plain (omega arith))
      (edit_loop-keys at_eof room cs rs (after_key c e) (ground arith) plain (omega arith))

-- What typing does to the variables.
record Keyed (cs : List ℕ) (e e' : Editor) : Type 0 where
  escape : e'.escape ≡ e.escape
  fits : e'.fits ≡ e.fits
  n : e'.n ≡ e.n + length cs
  earlier : (i : ℕ) → i < e.n → get_or e'.line i 0 ≡ get_or e.line i 0
  typed : (i : ℕ) → i < length cs → get_or e'.line (e.n + i) 0 ≡ get_or cs i 0

after_keys-Keyed :
    (cs : List ℕ) (e : Editor) → e.n + length cs ≤ length e.line → Keyed cs e (after_keys cs e)
unfolding after_keys after_key
after_keys-Keyed [] e room = record {
  escape = refl;
  fits = refl;
  n = omega arith;
  earlier = λ i h. refl;
  typed = λ i h. elim h [ ];
}
after_keys-Keyed (c ∷ cs) e room =
    let k = after_keys-Keyed cs (after_key c e) (ground (arith, length-set e.line e.n c)) in
    record {
      escape = k.escape;
      fits = k.fits;
      n = omega (arith, k.n);
      earlier = λ i h. k.earlier i (omega arith) ∙ get_or-set_ne e.line e.n i c 0 (omega arith);
      typed = typed_here k;
    }
  where
    typed_here :
        Keyed cs (after_key c e) (after_keys cs (after_key c e))
        → (i : ℕ) → i < suc (length cs)
        → get_or (after_keys cs (after_key c e)).line (e.n + i) 0 ≡ get_or (c ∷ cs) i 0
    typed_here k zero h =
        let z : e.n + 0 ≡ e.n = omega arith in
        rw z (k.earlier e.n (omega arith) ∙ get_or-set_self e.line e.n c 0 (omega arith))
    typed_here k (suc i) h =
        let z : e.n + suc i ≡ e.n + 1 + i = omega arith in rw z (k.typed i (omega arith))

-- The line that the caller gets is `cs`.
pub record IsTyped (cs : List ℕ) (o : Option Edited) : Type 0 where
  pub edited : Edited
  pub returned : o ≡ some edited
  pub accepted : edited.result ≡ line_ok
  pub stored : edited.length ≡ some (length cs)
  pub holds : (i : ℕ) → i < length cs → get_or edited.editor.line i 0 ≡ get_or cs i 0

-- Enter hands over the line of `e`, which `cs` has been typed into.
enter-IsTyped :
    (at_eof : Bool) (room : ℕ) (cs : List ℕ) (rs : List Reading) (start e : Editor)
    → start.n ≡ 0
    → start.fits ≡ true
    → Keyed cs start e
    → IsTyped cs (edit_loop at_eof room (byte 13 ∷ rs) e)
unfolding edit_loop edit_byte after_round finish echo
enter-IsTyped at_eof room cs rs start e empty unbroken k =
    let accepts : e.fits ≡ true = k.fits ∙ unbroken in
    let n : e.n ≡ length cs = omega (arith, k.n) in
    record {
      edited = finish (record e { previous = 13 });
      returned = refl;
      accepted = rw accepts refl;
      stored = rw (accepts, n) refl;
      holds = λ i h.
          let z : start.n + i ≡ i = omega arith in
          subst (λ j. get_or e.line j 0 ≡ get_or cs i 0) z (k.typed i h);
    }

-- With a buffer of at least `room` bytes, printable characters of at most `room` in number,
-- followed by Enter as a carriage return, make `line_edit` return LINE_OK with their number, and
-- the buffer begins with them, in order, whatever was read before and whatever follows.
pub line_edit-IsTyped :
    (at_eof : Bool) (room previous : ℕ) (line cs : List ℕ) (rs : List Reading)
    → room ≤ length line
    → length cs ≤ room
    → all_printable cs ≡ true
    → IsTyped cs (line_edit at_eof room previous line (map byte cs ++ byte 13 ∷ rs))
unfolding line_edit
line_edit-IsTyped at_eof room previous line cs rs size fits p =
    rw (edit_loop-keys at_eof room cs (byte 13 ∷ rs) start p refl (omega arith)) (
      enter-IsTyped at_eof room cs rs start (after_keys cs start) refl refl
        (after_keys-Keyed cs start (omega arith)))
  where
    start : Editor
    start = record {
      escape = text;
      line = line;
      n = 0;
      fits = true;
      previous = previous;
      echoed = [];
    }
