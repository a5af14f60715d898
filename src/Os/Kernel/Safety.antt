-- ===== src/Os/Kernel/Safety.antt =====
-- What the process table promises: the slots of live processes are apart, and a file that is open for writing is open
-- once. The children show which calls of the kernel leave the table quiet, and that the others keep the promise.
pub mod Returns
pub mod Waking
pub mod Ending
pub mod Mapping
pub mod Placing
pub mod Starting
pub mod Asking
pub mod Filing
pub mod Opening
pub mod Serving
pub mod Running
pub mod Trapping
mod Tests
use tiny_processors.Prelude.{
  ℕ, ◌+◌, ◌≤◌, ◌<◌, ◌≡◌, ◌≢◌, refl, sym, ◌∙◌, ap, ◌⊎◌, inl, inr, arith, Bool, true, false, not,
  ◌&&◌, List, ◌==◌, ◌!=◌, ltb, if◌then◌else◌, Bool-cases, get_or, set, length, get_or-set,
}
use tiny_processors.Os.Kernel.{
  Proc, OpenFile, State, no_proc, no_file, is_free, is_zombie, alive, o_write,
}

abbrev pub file_at : Proc → ℕ → OpenFile
file_at p f = get_or p.files f no_file

abbrev pub is_open : Proc → ℕ → Bool
is_open p f = not (is_free p.state) && (file_at p f).mode != 0

-- The slots of two processes do not meet.
abbrev pub Apart : Proc → Proc → Type 0
Apart p q = (p.base + p.span ≤ q.base) ⊎ (q.base + q.span ≤ p.base)

-- Two open files are different ones, or both are read.
abbrev pub Shared : OpenFile → OpenFile → Type 0
Shared o o' = o.file ≡ o'.file → (o.mode ≢ o_write) × (o'.mode ≢ o_write)

pub record IsSafe (procs : List Proc) : Type 0 where
  pub slots :
      (i j : ℕ)
      → i ≢ j
      → alive (get_or procs i no_proc) ≡ true
      → alive (get_or procs j no_proc) ≡ true
      → Apart (get_or procs i no_proc) (get_or procs j no_proc)
  pub files :
      (i j f g : ℕ)
      → (i ≢ j) ⊎ (f ≢ g)
      → is_open (get_or procs i no_proc) f ≡ true
      → is_open (get_or procs j no_proc) g ≡ true
      → Shared (file_at (get_or procs i no_proc) f) (file_at (get_or procs j no_proc) g)

-- A process that has not come to life, moved or opened a file.
pub record QuietProc (p p' : Proc) : Type 0 where
  pub lives : alive p' ≡ true → alive p ≡ true
  pub base : alive p' ≡ true → p'.base ≡ p.base
  pub span : alive p' ≡ true → p'.span ≡ p.span
  pub opened : (f : ℕ) → is_open p' f ≡ true → is_open p f ≡ true
  pub mode : (f : ℕ) → is_open p' f ≡ true → (file_at p' f).mode ≡ (file_at p f).mode
  pub file : (f : ℕ) → is_open p' f ≡ true → (file_at p' f).file ≡ (file_at p f).file

pub record Quiet (procs procs' : List Proc) : Type 0 where
  pub at : (i : ℕ) → QuietProc (get_or procs i no_proc) (get_or procs' i no_proc)

pub QuietProc-refl : (p : Proc) → QuietProc p p
QuietProc-refl p = record {
  lives = λ h. h;
  base = λ h. refl;
  span = λ h. refl;
  opened = λ f h. h;
  mode = λ f h. refl;
  file = λ f h. refl;
}

pub Quiet-refl : (procs : List Proc) → Quiet procs procs
Quiet-refl procs = record { at = λ i. QuietProc-refl (get_or procs i no_proc) }

pub Quiet-same : {procs procs' : List Proc} → procs' ≡ procs → Quiet procs procs'
Quiet-same {procs} same = rw same (Quiet-refl procs)

pub QuietProc-trans : (p q r : Proc) → QuietProc p q → QuietProc q r → QuietProc p r
QuietProc-trans p q r a b = record {
  lives = λ h. a.lives (b.lives h);
  base = λ h. b.base h ∙ a.base (b.lives h);
  span = λ h. b.span h ∙ a.span (b.lives h);
  opened = λ f h. a.opened f (b.opened f h);
  mode = λ f h. b.mode f h ∙ a.mode f (b.opened f h);
  file = λ f h. b.file f h ∙ a.file f (b.opened f h);
}

pub Quiet-trans : {a b c : List Proc} → Quiet a b → Quiet b c → Quiet a c
Quiet-trans q r = record { at = λ i. QuietProc-trans _ _ _ (q.at i) (r.at i) }

-- A process whose slots and files are the same, and which was live or not free if it is.
pub QuietProc-same :
    (p p' : Proc)
    → p'.base ≡ p.base
    → p'.span ≡ p.span
    → p'.files ≡ p.files
    → (alive p' ≡ true → alive p ≡ true)
    → (is_free p'.state ≡ false → is_free p.state ≡ false)
    → QuietProc p p'
QuietProc-same p p' b s fs lives used = record {
  lives = lives;
  base = λ h. b;
  span = λ h. s;
  opened = λ f h. ground (arith, ap (λ l. (get_or l f no_file).mode) fs);
  mode = λ f h. ap (λ l. (get_or l f no_file).mode) fs;
  file = λ f h. ap (λ l. (get_or l f no_file).file) fs;
}

-- A process put back at its place.
pub Quiet-set :
    (procs : List Proc) (i : ℕ) (p : Proc)
    → QuietProc (get_or procs i no_proc) p
    → Quiet procs (set procs i p)
Quiet-set procs i p quiet = record {
  at = λ j. elim (Bool-cases (i == j && ltb i (length procs))) [
    | inl here ↦
        let is_p : get_or (set procs i p) j no_proc ≡ p =
          get_or-set procs i j p no_proc ∙ ground arith in
        let at_i : i ≡ j = ground arith in rw is_p (rw at_i at quiet)
    | inr other ↦
        let is_old : get_or (set procs i p) j no_proc ≡ get_or procs j no_proc =
          get_or-set procs i j p no_proc ∙ ground arith in
        rw is_old (QuietProc-refl (get_or procs j no_proc))
  ];
}

-- What is quiet keeps the promise.
pub Quiet-IsSafe : (procs procs' : List Proc) → Quiet procs procs' → IsSafe procs → IsSafe procs'
Quiet-IsSafe procs procs' quiet safe = record {
  slots = λ i j differ live_i live_j. ground (
    arith,
    safe.slots i j differ ((quiet.at i).lives live_i) ((quiet.at j).lives live_j),
    (quiet.at i).base live_i,
    (quiet.at i).span live_i,
    (quiet.at j).base live_j,
    (quiet.at j).span live_j,
  );
  files = λ i j f g differ open_i open_j same.
      let was : Shared (file_at (get_or procs i no_proc) f) (file_at (get_or procs j no_proc) g) =
        safe.files i j f g differ ((quiet.at i).opened f open_i) ((quiet.at j).opened g open_j) in
      rw ((quiet.at i).mode f open_i, (quiet.at j).mode g open_j)
        (was (sym ((quiet.at i).file f open_i) ∙ same ∙ (quiet.at j).file g open_j));
}
