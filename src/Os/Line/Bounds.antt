-- ===== src/Os/Line/Bounds.antt =====
-- The line editor stays within the caller's buffer.
use tiny_processors.Prelude.{
  ℕ, zero, suc, ◌+◌, ◌-◌, ◌<◌, ◌≤◌, ◌≡◌, refl, ◌∙◌, arith, Bool, true, false, ◌||◌, List, [], ◌∷◌,
  Option, none, some, ltb, ◌==◌, ◌!=◌, if◌then◌else◌, set, get_or, length, length-set, get_or-set,
  get_or-set_ne, Bool-cases, inl, inr, OnSome, OnSome-some, OnSome-none,
}
use tiny_processors.Os.Line.{
  LineResult, line_end, line_error, after_round, Escape, text, after_esc, sequence, Reading, failed,
  no_byte, byte, Editor, Round, continues, breaks, returns, echo, rub_out, text_byte, edit_byte,
  inner_byte, Edited, finish, edit_loop, line_edit,
}

-- The buffer keeps its size, and its bytes past `room`; the characters of the line are at most `room`, and
-- printable.
pub record IsWithin (room : ℕ) (before line : List ℕ) (n : ℕ) : Type 0 where
  pub same_size : length line ≡ length before
  pub n_le : n ≤ room
  pub printable : (i : ℕ) → i < n → (0x20 ≤ get_or line i 0) × (get_or line i 0 ≤ 0x7e)
  pub untouched : (i : ℕ) → room ≤ i → get_or line i 0 ≡ get_or before i 0

rub_out-keeps :
    (count : ℕ) (e : Editor) → ((rub_out count e).line ≡ e.line) × ((rub_out count e).n ≡ e.n)
unfolding rub_out echo
rub_out-keeps zero e = (refl, refl)
rub_out-keeps (suc count) e = rub_out-keeps count (echo (8 ∷ 32 ∷ 8 ∷ []) e)

-- The invariant on what a round leaves.
data Keeps (room : ℕ) (before : List ℕ) : Round → Type 0 where
  at_continue : {e : Editor} → IsWithin room before e.line e.n → Keeps room before (continues e)
  at_break : {e : Editor} → IsWithin room before e.line e.n → Keeps room before (breaks e)
  at_return :
      {r : LineResult} {e : Editor}
      → IsWithin room before e.line e.n
      → Keeps room before (returns r e)

Keeps-if :
    (room : ℕ) (before : List ℕ) (b : Bool) (r s : Round)
    → (b ≡ true → Keeps room before r)
    → (b ≡ false → Keeps room before s)
    → Keeps room before (if b then r else s)
Keeps-if room before true r s f g = f refl
Keeps-if room before false r s f g = g refl

IsWithin-shorter :
    (room : ℕ) (before line : List ℕ) (n k : ℕ)
    → k ≤ n
    → IsWithin room before line n
    → IsWithin room before line k
IsWithin-shorter room before line n k le w = record {
  same_size = w.same_size;
  n_le = omega arith;
  printable = λ i h. w.printable i (omega arith);
  untouched = w.untouched;
}

IsWithin-set :
    (room c : ℕ) (before line : List ℕ) (n : ℕ)
    → n < room
    → room ≤ length before
    → 0x20 ≤ c
    → c ≤ 0x7e
    → IsWithin room before line n
    → IsWithin room before (set line n c) (n + 1)
IsWithin-set room c before line n h size low high w = record {
  same_size = length-set line n c ∙ w.same_size;
  n_le = omega arith;
  printable = λ i l. elim (Bool-cases (n == i)) [
    | inl new ↦ ground (arith, get_or-set line n i c 0, w.same_size)
    | inr old ↦ ground (arith, get_or-set line n i c 0, w.printable i)
  ];
  untouched = λ i l. get_or-set_ne line n i c 0 (omega arith) ∙ w.untouched i l;
}

rubbed-IsWithin :
    (room : ℕ) (before : List ℕ) (e : Editor) (count k : ℕ)
    → k ≤ e.n
    → IsWithin room before e.line e.n
    → IsWithin room before (rub_out count e).line k
rubbed-IsWithin room before e count k le w =
    rw (rub_out-keeps count e).0 (IsWithin-shorter room before e.line e.n k le w)

erased-Keeps :
    (room : ℕ) (before : List ℕ) (e : Editor)
    → IsWithin room before e.line e.n
    → Keeps room before (continues (if e.n != 0 then rub_out 1 (record e { n = e.n - 1 }) else e))
unfolding rub_out echo
erased-Keeps room before e w = elim (Bool-cases (e.n != 0)) [
  | inl some_left ↦
      rw some_left (at_continue (IsWithin-shorter room before e.line e.n (e.n - 1) (omega arith) w))
  | inr empty ↦ rw empty (at_continue w)
]

continues-Keeps :
    (room : ℕ) (before : List ℕ) (e e' : Editor)
    → IsWithin room before e.line e.n
    → e'.line ≡ e.line
    → e'.n ≡ e.n
    → Keeps room before (continues e')
continues-Keeps room before e e' w same_line same_n =
    at_continue {e = e'} (rw (same_line, same_n) w)

typed-Keeps :
    (room c : ℕ) (before : List ℕ) (e e' : Editor)
    → room ≤ length before
    → IsWithin room before e.line e.n
    → e'.line ≡ set e.line e.n c
    → e'.n ≡ e.n + 1
    → (ltb c 0x20 || ltb 0x7e c) ≡ false
    → ltb e.n room ≡ true
    → Keeps room before (continues e')
typed-Keeps room c before e e' size w same_line same_n plain fits = at_continue {e = e'} (
    rw (same_line, same_n)
      (IsWithin-set room c before e.line e.n (ground arith) size (ground arith) (ground arith) w))

cleared-Keeps :
    (room : ℕ) (before : List ℕ) (e e' : Editor)
    → IsWithin room before e.line e.n
    → e'.line ≡ (rub_out e.n e).line
    → e'.n ≡ 0
    → Keeps room before (continues e')
cleared-Keeps room before e e' w same_line none_left =
    at_continue {e = e'}
      (rw (same_line, none_left) (rubbed-IsWithin room before e e.n 0 (omega arith) w))

text_byte-Keeps :
    (at_eof : Bool) (room c : ℕ) (before : List ℕ) (e : Editor)
    → room ≤ length before
    → IsWithin room before e.line e.n
    → Keeps room before (text_byte at_eof room c e)
unfolding text_byte echo
text_byte-Keeps at_eof room c before e size w =
    search
      (
        Keeps-if,
        at_return {r = line_end} {e = e} w,
        erased-Keeps room before e w,
        cleared-Keeps room before e (record (rub_out e.n e) { n = 0; fits = true }) w refl refl,
        continues-Keeps room before e (record e { escape = after_esc }) w refl refl,
        continues-Keeps room before e (echo (7 ∷ []) e) w refl refl,
        typed-Keeps room c before e
            (echo (c ∷ []) (record e { line = set e.line e.n c; n = e.n + 1 })) size w refl refl,
        continues-Keeps room before e (echo (7 ∷ []) (record e { fits = false })) w refl refl,
      )
      depth 16

inner_byte-Keeps :
    (escape : Escape) (at_eof : Bool) (room c : ℕ) (before : List ℕ) (e : Editor)
    → room ≤ length before
    → IsWithin room before e.line e.n
    → Keeps room before (inner_byte escape at_eof room c e)
unfolding inner_byte
inner_byte-Keeps text at_eof room c before e size w =
    text_byte-Keeps at_eof room (if c == 9 then 32 else c) before e size w
inner_byte-Keeps after_esc at_eof room c before e size w =
    continues-Keeps room before e _ w refl refl
inner_byte-Keeps sequence at_eof room c before e size w =
    continues-Keeps room before e _ w refl refl

edit_byte-Keeps :
    (at_eof : Bool) (room c : ℕ) (before : List ℕ) (e : Editor)
    → room ≤ length before
    → IsWithin room before e.line e.n
    → Keeps room before (edit_byte at_eof room c e)
unfolding edit_byte
edit_byte-Keeps at_eof room c before e size w =
    search
      (
        Keeps-if,
        at_break {e = record e { previous = c }} w,
        continues-Keeps room before e (record e { previous = c }) w refl refl,
        inner_byte-Keeps e.escape at_eof room c before (record e { previous = c }) size w,
      )
      depth 8

-- What the caller gets: its buffer, with a line of at most `room` printable characters.
pub record IsSafe (room : ℕ) (before : List ℕ) (r : Edited) : Type 0 where
  pub within : IsWithin room before r.editor.line r.editor.n
  pub stored : (l : ℕ) → r.length ≡ some l → l ≤ r.editor.n

no_length-IsSafe :
    (room : ℕ) (before : List ℕ) (result : LineResult) (e : Editor)
    → IsWithin room before e.line e.n
    → IsSafe room before (record { result = result; length = none; editor = e })
no_length-IsSafe room before result e w = record { within = w; stored = λ l h. cc }

finish-IsSafe :
    (room : ℕ) (before : List ℕ) (e : Editor)
    → IsWithin room before e.line e.n
    → IsSafe room before (finish e)
unfolding finish echo
finish-IsSafe room before e w = record { within = w; stored = λ l h. ground arith }

after_round-IsSafe :
    (room : ℕ) (before : List ℕ) (rest : Editor → Option Edited) (r : Round)
    → ((e : Editor) → IsWithin room before e.line e.n → OnSome (IsSafe room before) (rest e))
    → Keeps room before r
    → OnSome (IsSafe room before) (after_round rest r)
unfolding after_round
after_round-IsSafe room before rest (continues e) later (at_continue w) = later e w
after_round-IsSafe room before rest (breaks e) later (at_break w) =
    OnSome-some (finish e) (finish-IsSafe room before e w)
after_round-IsSafe room before rest (returns r e) later (at_return w) =
    OnSome-some _ (no_length-IsSafe room before r e w)

edit_loop-IsSafe :
    (at_eof : Bool) (room : ℕ) (before : List ℕ) (rs : List Reading) (e : Editor)
    → room ≤ length before
    → IsWithin room before e.line e.n
    → OnSome (IsSafe room before) (edit_loop at_eof room rs e)
unfolding edit_loop
edit_loop-IsSafe at_eof room before [] e size w = OnSome-none
edit_loop-IsSafe at_eof room before (failed ∷ rs) e size w =
    OnSome-some _ (no_length-IsSafe room before line_error e w)
edit_loop-IsSafe at_eof room before (no_byte ∷ rs) e size w =
    edit_loop-IsSafe at_eof room before rs e size w
edit_loop-IsSafe at_eof room before (byte c ∷ rs) e size w =
    after_round-IsSafe room before (λ e'. edit_loop at_eof room rs e') (edit_byte at_eof room c e)
      (λ e' w'. edit_loop-IsSafe at_eof room before rs e' size w')
      (edit_byte-Keeps at_eof room c before e size w)

-- With a buffer of at least `room` bytes, whatever `line_edit` reads, if it returns then the
-- buffer has its size and its bytes from `room` on, the line in it has at most `room` characters,
-- all of them printable, and the length that it stores is at most that of the line.
pub line_edit-IsSafe :
    (at_eof : Bool) (room previous : ℕ) (line : List ℕ) (rs : List Reading) (r : Edited)
    → room ≤ length line
    → line_edit at_eof room previous line rs ≡ some r
    → IsSafe room line r
unfolding line_edit
line_edit-IsSafe at_eof room previous line rs r size ran =
    (edit_loop-IsSafe at_eof room line rs _ size record {
      same_size = refl;
      n_le = omega arith;
      printable = λ i h. elim h [ ];
      untouched = λ i h. refl;
    }).at
      r ran
