-- ===== src/Os/Kernel/Safety/Trapping.antt =====
-- Every trap keeps the promise of the process table, and the process that goes on runs.
use tiny_processors.Prelude.{
  ℕ, zero, suc, ◌+◌, ◌%◌, ◌^◌, ◌≡◌, refl, ◌∙◌, inl, inr, arith, Bool, true, false, not, ◌&&◌, ◌||◌,
  ◌==◌, ◌!=◌, bit_and, if◌then◌else◌, Bool-cases, Option-cases, Option, none, some,
}
use tiny_processors.Os.Disk.{Disk}
use tiny_processors.Os.Kernel.{
  Kernel, Board, Config, returns, panics, ◌>>=◌, Proc, ready, is_running, alive, proc_at, with_proc,
  with_board, mstatus_fs,
}
use tiny_processors.Os.Kernel.Schedule.{next_ready}
use tiny_processors.Os.Kernel.Fpu.{
  give_up, take_fpu, claim_fpu, another_floats, fs_on, floating_instruction,
}
use tiny_processors.Os.Kernel.Exit.{finish}
use tiny_processors.Os.Kernel.Trap.{
  Cause, interrupt, exception, take_event, drain_loop, preempt, external_interrupt, timer_interrupt,
  step_past, exception_of, handle, kernel_trap,
}
use tiny_processors.Os.Kernel.Safety.{
  IsSafe, Quiet, Quiet-refl, Quiet-same, Quiet-set, Quiet-trans, Quiet-IsSafe, QuietProc,
  QuietProc-same,
}
use tiny_processors.Os.Kernel.Safety.Returns.{OnReturn, OnReturn-bind}
use tiny_processors.Os.Kernel.Safety.Waking.{Chosen, next_ready-Chosen}
use tiny_processors.Os.Kernel.Safety.Running.{IsSound, schedule-IsSound}
use tiny_processors.Os.Kernel.Safety.Serving.{
  Safely, Safely-bind, Safely-returns, syscall-Safely, finish-Safely,
}

QuietProc-mstatus : (p : Proc) (value : ℕ) → QuietProc p (record p { mstatus = value })
QuietProc-mstatus p value = QuietProc-same p _ refl refl refl (λ h. h) (λ h. h)

module _ {B D : Type 0} (board : Board B) where
  take_event-procs : (event : ℕ) (k : Kernel B D) → (take_event event k).procs ≡ k.procs
  unfolding take_event
  take_event-procs event k = ground arith

  drain_loop-procs : (fuel : ℕ) (k : Kernel B D) → (drain_loop board fuel k).procs ≡ k.procs
  unfolding drain_loop
  drain_loop-procs zero k = refl
  drain_loop-procs (suc fuel) k = elim (Bool-cases ((board.input_event k.board).0 == 0)) [
    | inl last ↦ rw (last, drain_loop) refl
    | inr more ↦
        rw (more, drain_loop)
          (drain_loop-procs fuel _
            ∙ take_event-procs _ (with_board (board.input_event k.board).1 k))
  ]

  external_interrupt-procs :
      (config : Config) (fuel : ℕ) (k : Kernel B D)
      → (external_interrupt board config fuel k).procs ≡ k.procs
  unfolding external_interrupt
  external_interrupt-procs config fuel k =
      ground (arith, drain_loop-procs fuel (with_board (board.plic_claim k.board).1 k))

  preempt-Quiet : (from : Option ℕ) (k : Kernel B D) → Quiet k.procs (preempt board from k).procs
  unfolding preempt
  preempt-Quiet none k = Quiet-refl k.procs
  preempt-Quiet (some i) k =
      chosen (next_ready board (some i) k) (next_ready-Chosen board (some i) k)
    where
      yielded : Kernel B D → Proc
      yielded l = record (proc_at l i) {
        state = ready;
        switches = ((proc_at l i).switches + 1) % 2 ^ 32;
      }

      chosen :
          (r : Option ℕ × Kernel B D)
          → Chosen board k.procs r
          → Quiet k.procs
              (elim r.0 as (λ x. Kernel B D) [
                | none ↦ r.1
                | some j ↦
                    if is_running (proc_at r.1 i).state && j != i
                    then with_proc i (yielded r.1) r.1
                    else r.1
              ]).procs
      chosen (none, l) same = Quiet-same same
      chosen (some j, l) same = elim (Bool-cases (is_running (proc_at l i).state && j != i)) [
        | inl yields ↦ rw yields (
            Quiet-trans (Quiet-same same.0) (
              Quiet-set l.procs i _ (
                QuietProc-same (proc_at l i) _ refl refl refl (λ h. ground arith)
                  (λ h. ground arith))))
        | inr stays ↦ rw stays (Quiet-same same.0)
      ]

  timer_interrupt-Quiet :
      (config : Config) (k : Kernel B D) → Quiet k.procs (timer_interrupt board config k).procs
  unfolding timer_interrupt
  timer_interrupt-Quiet config k = preempt-Quiet k.current _

  -- What a claim of the FPU leaves: a quiet table, and the caller alive where it is refused.
  abbrev Claimed : ℕ → Kernel B D → Bool → Kernel B D → Type 0
  Claimed i k claimed k' = Quiet k.procs k'.procs × (claimed ≡ false → k'.procs ≡ k.procs)

  give_up-Quiet : (owner : Option ℕ) (k : Kernel B D) → Quiet k.procs (give_up board owner k).procs
  unfolding give_up
  give_up-Quiet none k = Quiet-refl k.procs
  give_up-Quiet (some i) k =
      elim (Bool-cases (bit_and (proc_at k i).mstatus mstatus_fs == mstatus_fs)) [
        | inl dirty ↦
            rw (dirty, give_up) (Quiet-set k.procs i _ (QuietProc-mstatus (proc_at k i) _))
        | inr clean ↦
            rw (clean, give_up) (Quiet-set k.procs i _ (QuietProc-mstatus (proc_at k i) _))
      ]

  claim_fpu-Claimed :
      (i word : ℕ) (k : Kernel B D) → OnReturn (Claimed i k) (claim_fpu board i word k)
  unfolding claim_fpu take_fpu
  claim_fpu-Claimed i word k =
      elim (Bool-cases (fs_on (proc_at k i) || not (floating_instruction word))) [
        | inl other ↦ rw (other, OnReturn, claim_fpu) (Quiet-refl k.procs, λ h. refl)
        | inr needed ↦ elim (Bool-cases (another_floats i 0 (take_fpu board i given).procs)) [
          | inl broken ↦ rw (needed, broken, OnReturn, claim_fpu) tt
          | inr owned ↦ rw (needed, owned, OnReturn, claim_fpu) (taken, λ h. cc)
        ]
      ]
    where
      given : Kernel B D
      given = give_up board k.fpu_owner k

      taken : Quiet k.procs (take_fpu board i given).procs
      taken =
          Quiet-trans (give_up-Quiet k.fpu_owner k)
            (Quiet-set given.procs i _ (QuietProc-mstatus (proc_at given i) _))

  Safely-panics : (k : Kernel B D) → Safely {A = Unit {0}} (panics k)
  unfolding Safely
  Safely-panics k = tt

  module _ (disk : Disk D) (config : Config) where
    step_past-IsSafe :
        (i : ℕ) (done : Bool) (k : Kernel B D)
        → IsSafe k.procs
        → IsSafe (step_past board config disk i done k).procs
    unfolding step_past
    step_past-IsSafe i true k safe =
        Quiet-IsSafe k.procs _
          (Quiet-set k.procs i _ (QuietProc-same (proc_at k i) _ refl refl refl (λ h. h) (λ h. h)))
          safe
    step_past-IsSafe i false k safe = safe

    -- An illegal instruction: the claim of the FPU, or the end of the process.
    claims-Safely :
        (i word cause : ℕ) (k : Kernel B D)
        → IsSafe k.procs
        → alive (proc_at k i) ≡ true
        → Safely (
            claim_fpu board i word k >>= λ (claimed, k').
            if claimed then returns tt k' else finish board disk config i (128 + cause) k')
    unfolding Safely
    claims-Safely i word cause k safe lives =
        OnReturn-bind (Claimed i k) _ (claim_fpu board i word k) _ (claim_fpu-Claimed i word k)
          after
      where
        after :
            (claimed : Bool) (l : Kernel B D)
            → Claimed i k claimed l
            → OnReturn
                (λ u k'. IsSafe k'.procs)
                (if claimed then returns tt l else finish board disk config i (128 + cause) l)
        after true l h = Quiet-IsSafe k.procs l.procs h.0 safe
        after false l h =
            finish-Safely board disk config i (128 + cause) l
              (Quiet-IsSafe k.procs l.procs h.0 safe) (rw (h.1 refl) lives)

    exception_of-Safely :
        (i cause tval : ℕ) (k : Kernel B D)
        → IsSafe k.procs
        → alive (proc_at k i) ≡ true
        → Safely (exception_of board config disk i cause tval k)
    unfolding exception_of
    exception_of-Safely i cause tval k safe lives = elim (Bool-cases (cause == 8 || cause == 11)) [
      | inl calls ↦
          rw (calls, exception_of)
            (Safely-bind _ _ (syscall-Safely board disk config i k safe lives)
              (λ done l safe'. Safely-returns _ _ (step_past-IsSafe i done l safe')))
      | inr other ↦ elim (Bool-cases (cause == 2)) [
        | inl illegal ↦ rw (other, illegal, exception_of) (claims-Safely i _ cause k safe lives)
        | inr fault ↦
            rw (other, fault, exception_of) (finish-Safely board disk config i _ k safe lives)
      ]
    ]

    handle-Safely :
        (fuel : ℕ) (cause : Cause) (k : Kernel B D)
        → IsSafe k.procs
        → ((i : ℕ) → k.current ≡ some i → alive (proc_at k i) ≡ true)
        → Safely (handle board config disk fuel cause k)
    unfolding handle
    handle-Safely fuel (interrupt code) k safe live = elim (Bool-cases (code == 11)) [
      | inl external ↦
          rw (external, handle)
            (Safely-returns _ _ (rw (external_interrupt-procs config fuel k) safe))
      | inr other ↦ elim (Bool-cases (code == 7)) [
        | inl timer ↦
            rw (other, timer, handle)
              (Safely-returns _ _ (Quiet-IsSafe k.procs _ (timer_interrupt-Quiet config k) safe))
        | inr neither ↦ rw (other, neither, handle) (Safely-returns _ k safe)
      ]
    ]
    handle-Safely fuel (exception cause tval) k safe live = elim (Option-cases k.current) [
      | inl idle ↦ rw (idle, handle) (Safely-panics k)
      | inr i ↦ rw (i.1, handle) (exception_of-Safely i.0 cause tval k safe (live i.0 i.1))
    ]

    -- For any board, disk and configuration: in a kernel where the slots of any two live
    -- processes are apart, no open file shares a file with one that is open for writing, and the
    -- current process, if there is one, runs, every trap of the current process or of the idle
    -- loop, be it an interrupt, a system call, a claim of the FPU or a fault, leaves the same
    -- three facts wherever `kernel_trap` returns.
    pub kernel_trap-IsSound :
        (fuel : ℕ) (cause : Cause) (k : Kernel B D)
        → IsSound k
        → OnReturn (λ u k'. IsSound k') (kernel_trap board config disk fuel k.current cause k)
    unfolding kernel_trap Safely
    kernel_trap-IsSound fuel cause k sound =
        OnReturn-bind _ _ (handle board config disk fuel cause (record k { current = k.current })) _
          (handle-Safely fuel cause _ sound.safe (λ i now. ground (arith, sound.runs i now)))
          (λ u k' safe. schedule-IsSound board k' safe)
