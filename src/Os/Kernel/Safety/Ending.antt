-- ===== src/Os/Kernel/Safety/Ending.antt =====
-- The end of a process leaves the process table quiet.
use tiny_processors.Prelude.{
  ℕ, zero, suc, ◌+◌, ◌≡◌, refl, ◌∙◌, ap, inl, inr, arith, Bool, true, false, not, ◌&&◌, List, [],
  ◌∷◌, Option, none, some, ◌==◌, if◌then◌else◌, Bool-cases, get_or, set, get_or-set,
}
use tiny_processors.Os.Disk.{Disk}
use tiny_processors.Os.Fs.{Fs}
use tiny_processors.Os.Kernel.{
  Kernel, Board, Config, Outcome, returns, halts, panics, Proc, OpenFile, State, free, zombie,
  blocked_read, blocked_wait, blocked_sleep, running, ready, no_proc, no_file, is_free, is_zombie,
  alive, proc_at, with_proc,
}
use tiny_processors.Os.Kernel.Files.{close_file}
use tiny_processors.Os.Kernel.Process.{write_palette, free_children, is_waiting}
use tiny_processors.Os.Kernel.Exit.{
  stop_orphaned_engines, restore_palette, drop_fpu, close_loop, wind_up, hand_over, finish,
}
use tiny_processors.Os.Kernel.Safety.{
  QuietProc, QuietProc-refl, QuietProc-same, Quiet, Quiet-refl, Quiet-same, Quiet-trans, Quiet-set,
}
use tiny_processors.Os.Kernel.Safety.Returns.{OnReturn}
use tiny_processors.Os.Kernel.Safety.Waking.{QuietProc-state}

-- A descriptor that is closed.
pub QuietProc-close :
    (p : Proc) (f : ℕ) (o : OpenFile)
    → o.mode ≡ 0
    → QuietProc p (record p { files = set p.files f o })
QuietProc-close p f o closed = record {
  lives = λ h. h;
  base = λ h. refl;
  span = λ h. refl;
  opened = λ g h. ground (arith, get_or-set p.files f g o no_file);
  mode = λ g h. ground (arith, get_or-set p.files f g o no_file);
  file = λ g h. ground (arith, get_or-set p.files f g o no_file);
}

-- A process that is free, or a zombie.
pub QuietProc-free : (p : Proc) → QuietProc p (record p { state = free })
QuietProc-free p = record {
  lives = λ h. cc;
  base = λ h. refl;
  span = λ h. refl;
  opened = λ f h. cc;
  mode = λ f h. refl;
  file = λ f h. refl;
}

pub QuietProc-zombie :
    (p : Proc) → is_free p.state ≡ false → QuietProc p (record p { state = zombie })
QuietProc-zombie p used =
    QuietProc-same p (record p { state = zombie }) refl refl refl (λ h. cc) (λ h. used)

free_children-Quiet : (pid : ℕ) (procs : List Proc) → Quiet procs (free_children pid procs)
unfolding free_children
free_children-Quiet pid [] = Quiet-refl []
free_children-Quiet pid (q ∷ rest) = record { at = each (free_children-Quiet pid rest) }
  where
    first : Proc
    first = if is_zombie q.state && q.parent == pid then record q { state = free } else q

    first-Quiet : QuietProc q first
    first-Quiet = elim (Bool-cases (is_zombie q.state && q.parent == pid)) [
      | inl orphan ↦ rw orphan (QuietProc-free q)
      | inr other ↦ rw other (QuietProc-refl q)
    ]

    each :
        Quiet rest (free_children pid rest)
        → (i : ℕ)
        → QuietProc (get_or (q ∷ rest) i no_proc) (get_or (free_children pid (q ∷ rest)) i no_proc)
    each again zero = first-Quiet
    each again (suc i) = again.at i

waiting-alive : (s : State) → is_waiting s ≡ true → (not (is_free s) && not (is_zombie s)) ≡ true
unfolding is_waiting
waiting-alive free h = cc
waiting-alive ready h = refl
waiting-alive running h = refl
waiting-alive blocked_read h = refl
waiting-alive blocked_wait h = refl
waiting-alive blocked_sleep h = refl
waiting-alive zombie h = cc

free_children-alive :
    (pid : ℕ) (procs : List Proc) (i : ℕ)
    → alive (get_or procs i no_proc) ≡ true
    → get_or (free_children pid procs) i no_proc ≡ get_or procs i no_proc
unfolding free_children
free_children-alive pid [] i lives = refl
free_children-alive pid (q ∷ rest) zero lives = ground arith
free_children-alive pid (q ∷ rest) (suc i) lives = free_children-alive pid rest i lives

pub close_file-closed :
    {D : Type 0} (disk : Disk D) (o : OpenFile) (fs : Fs D) → (close_file disk o fs).0.mode ≡ 0
unfolding close_file
close_file-closed disk o fs = ground arith

module _ {B D : Type 0} (board : Board B) (disk : Disk D) (config : Config) where
  drop_fpu-procs : (i : ℕ) (k : Kernel B D) → (drop_fpu board disk config i k).procs ≡ k.procs
  unfolding drop_fpu
  drop_fpu-procs i k = by_owner k.fpu_owner
    where
      by_owner :
          (owner : Option ℕ)
          → (elim owner as (λ x. Kernel B D) [
            | none ↦ k
            | some j ↦ if i == j then record k { fpu_owner = none } else k
          ]).procs
            ≡ k.procs
      by_owner none = refl
      by_owner (some j) = ground arith

  stop-procs :
      (i : ℕ) (k : Kernel B D) → (stop_orphaned_engines board disk config i k).procs ≡ k.procs
  unfolding stop_orphaned_engines
  stop-procs i k = ground arith

  restore-procs : (i : ℕ) (k : Kernel B D) → (restore_palette board disk config i k).procs ≡ k.procs
  unfolding restore_palette write_palette
  restore-procs i k = ground arith

  close_loop-Quiet :
      (left at i : ℕ) (k : Kernel B D)
      → Quiet k.procs (close_loop board disk config left at i k).procs
  unfolding close_loop
  close_loop-Quiet zero at i k = Quiet-refl k.procs
  close_loop-Quiet (suc left) at i k =
      Quiet-trans
        (Quiet-set k.procs i _ (
          QuietProc-close (proc_at k i) at
            (close_file disk (get_or (proc_at k i).files at no_file) k.fs).0
            (close_file-closed disk _ k.fs)))
        (close_loop-Quiet left (at + 1) i _)

  close_loop-alive :
      (left at i : ℕ) (k : Kernel B D)
      → alive (proc_at (close_loop board disk config left at i k) i) ≡ alive (proc_at k i)
  unfolding close_loop
  close_loop-alive zero at i k = refl
  close_loop-alive (suc left) at i k = close_loop-alive left (at + 1) i _ ∙ same
    where
      closed : Proc
      closed = record (proc_at k i) {
        files =
            set (proc_at k i).files at
              (close_file disk (get_or (proc_at k i).files at no_file) k.fs).0;
      }

      same : alive (get_or (set k.procs i closed) i no_proc) ≡ alive (proc_at k i)
      same = ap alive (get_or-set k.procs i i closed no_proc) ∙ ground arith

  -- The processes where `wind_up` frees the children.
  closed_up : ℕ → Kernel B D → Kernel B D
  closed_up i k = close_loop board disk config 4 0 i (
      drop_fpu board disk config i
        (restore_palette board disk config i (stop_orphaned_engines board disk config i k)))

  closed_up-start :
      (i : ℕ) (k : Kernel B D)
      → (drop_fpu board disk config i
          (restore_palette board disk config i (stop_orphaned_engines board disk config i k))).procs
        ≡ k.procs
  closed_up-start i k = drop_fpu-procs i _ ∙ restore-procs i _ ∙ stop-procs i k

  wind_up-Quiet :
      (i code : ℕ) (k : Kernel B D) → Quiet k.procs (wind_up board disk config i code k).procs
  unfolding wind_up closed_up
  wind_up-Quiet i code k = Quiet-trans (Quiet-same (closed_up-start i k)) (
      Quiet-trans (close_loop-Quiet 4 0 i _) (
        Quiet-trans (free_children-Quiet (proc_at (closed_up i k) i).pid (closed_up i k).procs)
          (Quiet-set _ i _ (QuietProc-same _ _ refl refl refl (λ h. h) (λ h. h)))))

  wind_up-alive :
      (i code : ℕ) (k : Kernel B D)
      → alive (proc_at k i) ≡ true
      → alive (proc_at (wind_up board disk config i code k) i) ≡ true
  unfolding wind_up closed_up
  wind_up-alive i code k lives =
      ap alive (get_or-set freed i i coded no_proc) ∙ ground (arith, kept)
    where
      closed_lives : alive (proc_at (closed_up i k) i) ≡ true
      closed_lives =
          close_loop-alive 4 0 i _
          ∙ ap (λ l. alive (get_or l i no_proc)) (closed_up-start i k)
          ∙ lives

      freed : List Proc
      freed = free_children (proc_at (closed_up i k) i).pid (closed_up i k).procs

      coded : Proc
      coded = record (get_or freed i no_proc) { exit_code = code }

      kept : alive (get_or freed i no_proc) ≡ true
      kept = ap alive (free_children-alive _ (closed_up i k).procs i closed_lives) ∙ closed_lives

  hand_over-Quiet :
      (i : ℕ) (parent : Option ℕ) (code : ℕ) (k : Kernel B D)
      → alive (proc_at k i) ≡ true
      → OnReturn (λ u k'. Quiet k.procs k'.procs) (hand_over board disk config i parent code k)
  unfolding hand_over
  hand_over-Quiet i none code k lives = elim (Bool-cases ((proc_at k i).pid == 1)) [
    | inl first ↦ rw (first, OnReturn, hand_over) tt
    | inr other ↦ rw (other, OnReturn, hand_over) (Quiet-set k.procs i _ (QuietProc-free _))
  ]
  hand_over-Quiet i (some parent) code k lives = Quiet-trans left woken
    where
      k' : Kernel B D
      k' = with_proc i (record (proc_at k i) { state = zombie }) k

      waits : Bool
      waits =
          is_waiting (proc_at k' parent).state && (proc_at k' parent).wait_pid == (proc_at k i).pid

      left : Quiet k.procs k'.procs
      left = Quiet-set k.procs i _ (QuietProc-zombie (proc_at k i) (ground arith))

      woken :
          Quiet k'.procs
            (if waits
              then with_proc parent (record (proc_at k' parent) { state = ready }) k'
              else k').procs
      woken = elim (Bool-cases waits) [
        | inl waiting ↦ rw waiting (
            Quiet-set k'.procs parent _ (
              QuietProc-state (proc_at k' parent) ready
                (waiting-alive _ (ground (arith, waiting)))))
        | inr asleep ↦ rw asleep (Quiet-refl k'.procs)
      ]

  pub finish-Quiet :
      (i code : ℕ) (k : Kernel B D)
      → alive (proc_at k i) ≡ true
      → OnReturn (λ u k'. Quiet k.procs k'.procs) (finish board disk config i code k)
  unfolding finish
  finish-Quiet i code k lives =
      onward (hand_over board disk config i _ code k')
        (hand_over-Quiet i _ code k' (wind_up-alive i code k lives))
    where
      k' : Kernel B D
      k' = wind_up board disk config i code k

      onward :
          (m : Outcome B D (Unit {0}))
          → OnReturn (λ u l. Quiet k'.procs l.procs) m
          → OnReturn (λ u l. Quiet k.procs l.procs) m
      onward (returns u l) quiet = Quiet-trans (wind_up-Quiet i code k) quiet
      onward (halts c l) quiet = tt
      onward (panics l) quiet = tt
