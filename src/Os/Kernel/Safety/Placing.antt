-- ===== src/Os/Kernel/Safety/Placing.antt =====
-- An entry put in the process table keeps its promise where it fits among the others.
use tiny_processors.Prelude.{
  ℕ, ◌≡◌, ◌≢◌, sym, ◌∙◌, ◌⊎◌, inl, inr, arith, Bool, true, false, ◌&&◌, List, ◌==◌, ltb, Bool-cases,
  get_or, set, length, get_or-set,
}
use tiny_processors.Os.Kernel.{Proc, OpenFile, no_proc, alive}
use tiny_processors.Os.Kernel.Safety.{Apart, Shared, IsSafe, file_at, is_open}

-- Whether index `j` is the one that `set` writes.
abbrev is_at : List Proc → ℕ → ℕ → Bool
is_at procs m j = m == j && ltb m (length procs)

set-here :
    (procs : List Proc) (m j : ℕ) (p : Proc)
    → is_at procs m j ≡ true
    → get_or (set procs m p) j no_proc ≡ p
set-here procs m j p here = get_or-set procs m j p no_proc ∙ ground arith

set-away :
    (procs : List Proc) (m j : ℕ) (p : Proc)
    → is_at procs m j ≡ false
    → get_or (set procs m p) j no_proc ≡ get_or procs j no_proc
set-away procs m j p away = get_or-set procs m j p no_proc ∙ ground arith

-- An entry that fits among the others.
pub IsSafe-set :
    (procs : List Proc) (m : ℕ) (p : Proc)
    → IsSafe procs
    → ((j : ℕ)
        → j ≢ m
        → alive p ≡ true
        → alive (get_or procs j no_proc) ≡ true
        → Apart p (get_or procs j no_proc))
    → ((j f g : ℕ)
        → j ≢ m
        → is_open p f ≡ true
        → is_open (get_or procs j no_proc) g ≡ true
        → Shared (file_at p f) (file_at (get_or procs j no_proc) g))
    → ((f g : ℕ)
        → f ≢ g
        → is_open p f ≡ true
        → is_open p g ≡ true
        → Shared (file_at p f) (file_at p g))
    → IsSafe (set procs m p)
IsSafe-set procs m p safe apart shared own = record { slots = slots; files = files }
  where
    slots :
        (i j : ℕ)
        → i ≢ j
        → alive (get_or (set procs m p) i no_proc) ≡ true
        → alive (get_or (set procs m p) j no_proc) ≡ true
        → Apart (get_or (set procs m p) i no_proc) (get_or (set procs m p) j no_proc)
    slots i j differ = elim (Bool-cases (is_at procs m i)) [
      | inl i_here ↦ elim (Bool-cases (is_at procs m j)) [
        | inl j_here ↦ λ a b. absurd (differ (ground arith))
        | inr j_away ↦
            rw (set-here procs m i p i_here, set-away procs m j p j_away)
              (λ a b. apart j (λ e. differ (ground arith)) a b)
      ]
      | inr i_away ↦ elim (Bool-cases (is_at procs m j)) [
        | inl j_here ↦
            rw (set-away procs m i p i_away, set-here procs m j p j_here)
              (λ a b. elim (apart i (λ e. differ (ground arith)) b a) [
                | inl h ↦ inr h
                | inr h ↦ inl h
              ])
        | inr j_away ↦
            rw (set-away procs m i p i_away, set-away procs m j p j_away) (safe.slots i j differ)
      ]
    ]

    turn : (o o' : OpenFile) → Shared o o' → Shared o' o
    turn o o' h same = ((h (sym same)).1, (h (sym same)).0)

    differ_at : (i j : ℕ) → is_at procs m i ≡ true → is_at procs m j ≡ false → j ≡ m → ⊥
    differ_at i j here away e = ground arith

    files :
        (i j f g : ℕ)
        → (i ≢ j) ⊎ (f ≢ g)
        → is_open (get_or (set procs m p) i no_proc) f ≡ true
        → is_open (get_or (set procs m p) j no_proc) g ≡ true
        → Shared
            (file_at (get_or (set procs m p) i no_proc) f)
            (file_at (get_or (set procs m p) j no_proc) g)
    files i j f g differ = elim (Bool-cases (is_at procs m i)) [
      | inl i_here ↦ elim (Bool-cases (is_at procs m j)) [
        | inl j_here ↦
            rw (set-here procs m i p i_here, set-here procs m j p j_here)
              (own f g (λ e. elim differ [ inl h ↦ h (ground arith) | inr h ↦ h e ]))
        | inr j_away ↦
            rw (set-here procs m i p i_here, set-away procs m j p j_away)
              (λ a b. shared j f g (λ e. differ_at i j i_here j_away e) a b)
      ]
      | inr i_away ↦ elim (Bool-cases (is_at procs m j)) [
        | inl j_here ↦
            rw (set-away procs m i p i_away, set-here procs m j p j_here)
              (λ a b.
                turn (file_at p g) (file_at (get_or procs i no_proc) f)
                  (shared i g f (λ e. differ_at j i j_here i_away e) b a))
        | inr j_away ↦
            rw (set-away procs m i p i_away, set-away procs m j p j_away)
              (safe.files i j f g differ)
      ]
    ]
