-- ===== src/Os/Kernel/Safety/Serving.antt =====
-- Every system call keeps the promise of the process table.
use tiny_processors.Prelude.{
  ℕ, ◌≡◌, refl, inl, inr, Bool, true, false, ◌==◌, if◌then◌else◌, Option-cases, Option, List,
}
use tiny_processors.Os.Disk.{Disk}
use tiny_processors.Os.Kernel.{
  Kernel, Board, Config, Outcome, returns, halts, ◌>>=◌, alive, proc_at, space_at, args_max,
}
use tiny_processors.Os.Kernel.Memory.{string_loop}
use tiny_processors.Os.Kernel.Process.{spawn}
use tiny_processors.Os.Kernel.Exit.{finish}
use tiny_processors.Os.Kernel.Calls.{dispatch, conclude, syscall}
use tiny_processors.Os.Kernel.Calls.Ending.{Answer, result, again, gone, gives}
use tiny_processors.Os.Kernel.Calls.Processes.{child_pid, spawn_call}
use tiny_processors.Os.Kernel.Safety.{IsSafe, Quiet-set, Quiet-IsSafe, QuietProc-same}
use tiny_processors.Os.Kernel.Safety.Returns.{OnReturn, OnReturn-bind, OnReturn-map, Asks}
use tiny_processors.Os.Kernel.Safety.Ending.{finish-Quiet}
use tiny_processors.Os.Kernel.Safety.Starting.{spawn-IsSafe}
use tiny_processors.Os.Kernel.Safety.Opening.{open_call-IsSafe}
use tiny_processors.Os.Kernel.Calls.Filing.{open_call}
use tiny_processors.Os.Kernel.Safety.Asking.{
  event_call-Quiet, sbrk_call-Quiet, wait_call-Quiet, list_call-Quiet, yield_call-Quiet,
  ps_call-Quiet, sleep_call-Quiet, time_call-Quiet, keys_call-Quiet, present_call-Quiet,
  palette_call-Quiet,
}
use tiny_processors.Os.Kernel.Safety.Filing.{
  seek_call-Quiet, files_call-Quiet, close_call-Quiet, write_call-Quiet, read_call-Quiet,
}

module _ {B D A : Type 0} where
  -- The process table keeps the promise, where the call returns.
  unfoldable pub Safely : Outcome B D A → Type 0
  Safely m = OnReturn (λ a k. IsSafe k.procs) m

  Safely-if : (b : Bool) (m n : Outcome B D A) → Safely m → Safely n → Safely (if b then m else n)
  Safely-if true m n h g = h
  Safely-if false m n h g = g

  pub Safely-returns : (a : A) (k : Kernel B D) → IsSafe k.procs → Safely (returns a k)
  unfolding Safely
  Safely-returns a k safe = safe

  pub Asks-Safely : (k : Kernel B D) (m : Outcome B D A) → IsSafe k.procs → Asks k m → Safely m
  unfolding Safely Asks
  Asks-Safely k m safe asks =
      OnReturn-map _ _ m asks (λ a k' quiet. Quiet-IsSafe k.procs k'.procs quiet safe)

pub Safely-bind :
    {B D A C : Type 0} (m : Outcome B D A) (f : A × Kernel B D → Outcome B D C)
    → Safely m
    → ((a : A) (k : Kernel B D) → IsSafe k.procs → Safely (f (a, k)))
    → Safely (m >>= f)
unfolding Safely
Safely-bind m f h next = OnReturn-bind _ _ m f h next

module _ {B D : Type 0} (board : Board B) (disk : Disk D) (config : Config) where
  spawn-Safely :
      (name args : List ℕ) (parent : ℕ) (k : Kernel B D)
      → IsSafe k.procs
      → Safely (spawn disk config name args parent k)
  unfolding Safely
  spawn-Safely name args parent k safe = spawn-IsSafe disk config name args parent k safe

  open_call-Safely :
      (i a0 a1 : ℕ) (k : Kernel B D) → IsSafe k.procs → Safely (open_call disk i a0 a1 k)
  unfolding Safely
  open_call-Safely i a0 a1 k safe = open_call-IsSafe disk i a0 a1 k safe

  pub finish-Safely :
      (i code : ℕ) (k : Kernel B D)
      → IsSafe k.procs
      → alive (proc_at k i) ≡ true
      → Safely (finish board disk config i code k)
  unfolding Safely
  finish-Safely i code k safe lives =
      OnReturn-map _ _ (finish board disk config i code k)
        (finish-Quiet board disk config i code k lives)
        (λ u k' quiet. Quiet-IsSafe k.procs k'.procs quiet safe)

  Safely-halts : (code : ℕ) (k : Kernel B D) → Safely {A = Answer} (halts code k)
  unfolding Safely
  Safely-halts code k = tt

  spawn_call-Safely :
      (i a0 a1 : ℕ) (k : Kernel B D)
      → IsSafe k.procs
      → Safely (spawn_call board disk config i a0 a1 k)
  unfolding spawn_call
  spawn_call-Safely i a0 a1 k safe = elim (Option-cases (string_at 24 a0)) [
    | inl bad ↦ rw (bad, spawn_call) (Safely-returns _ k safe)
    | inr name ↦ elim (Option-cases (string_at args_max a1)) [
      | inl bad ↦ rw (name.1, bad, spawn_call) (Safely-returns _ k safe)
      | inr args ↦ rw (name.1, args.1, spawn_call) (made name.0 args.0)
    ]
  ]
    where
      string_at : ℕ → ℕ → Option (List ℕ)
      string_at left at =
          string_loop left (proc_at k i).base (proc_at k i).span (space_at k i).guard k.memory at

      made :
          (name args : List ℕ)
          → Safely (
              spawn disk config name args (proc_at k i).pid k >>= λ (child, k').
              gives (child_pid child k') k')
      made name args =
          Safely-bind _ _ (spawn-Safely name args _ k safe)
            (λ child k' safe'. Safely-returns _ k' safe')

  dispatch-Safely :
      (number i a0 a1 a2 : ℕ) (k : Kernel B D)
      → IsSafe k.procs
      → alive (proc_at k i) ≡ true
      → Safely (dispatch board disk config number i a0 a1 a2 k)
  unfolding dispatch
  dispatch-Safely number i a0 a1 a2 k safe lives = Safely-if (number == 0) _ _ (exit_Safely) (
      Safely-if (number == 1) _ _ (asks _ (write_call-Quiet disk board i a0 a1 a2 k)) (
        Safely-if (number == 2) _ _ (asks _ (read_call-Quiet disk board i a0 a1 a2 k lives)) (
          Safely-if (number == 3) _ _ (asks _ (event_call-Quiet k)) (
            Safely-if (number == 4) _ _ (asks _ (keys_call-Quiet board config k)) (
              Safely-if (number == 5) _ _ (asks _ (present_call-Quiet board config k)) (
                Safely-if (number == 6) _ _ (asks _ (sbrk_call-Quiet i a0 k)) (
                  Safely-if (number == 7) _ _ (spawn_call-Safely i a0 a1 k safe) (
                    Safely-if (number == 8) _ _ (asks _ (wait_call-Quiet i a0 k lives)) (
                      Safely-if (number == 9) _ _ (asks _ (list_call-Quiet config i a0 a1 a2 k)) (
                        Safely-if (number == 10) _ _ (asks _ (yield_call-Quiet i k lives)) (
                          Safely-if (number == 11) _ _
                            (asks _ (sleep_call-Quiet board i a0 k lives))
                            (Safely-if (number == 12) _ _ (Safely-halts a0 k) (
                              Safely-if (number == 13) _ _ (asks _ (time_call-Quiet board k)) (
                                Safely-if (number == 14) _ _ (returned _) (
                                  Safely-if (number == 15) _ _ (returned _) (
                                    Safely-if (number == 16) _ _ (open_call-Safely i a0 a1 k safe) (
                                      Safely-if (number == 17) _ _
                                        (asks _ (close_call-Quiet disk i a0 k))
                                        (Safely-if (number == 18) _ _
                                          (asks _ (files_call-Quiet i a0 a1 a2 k))
                                          (Safely-if (number == 19) _ _
                                            (asks _ (ps_call-Quiet i a0 a1 a2 k))
                                            (Safely-if (number == 20) _ _ (returned _) (
                                              Safely-if (number == 21) _ _
                                                (asks _ (seek_call-Quiet i a0 a1 a2 k))
                                                (Safely-if (number == 22) _ _
                                                  (asks _
                                                    (palette_call-Quiet board config i a0 a1 k))
                                                  (returned _)))))))))))))))))))))))
    where
      exit_Safely : Safely (finish board disk config i a0 k >>= λ (u, k'). returns gone k')
      exit_Safely =
          Safely-bind _ _ (finish-Safely i a0 k safe lives)
            (λ u k' safe'. Safely-returns gone k' safe')

      returned : (value : ℕ) → Safely {D = D} (gives value k)
      returned value = Safely-returns (result value) k safe

      asks : (m : Outcome B D Answer) → Asks k m → Safely m
      asks m h = Asks-Safely k m safe h

  conclude-IsSafe :
      (i : ℕ) (answer : Answer) (k : Kernel B D)
      → IsSafe k.procs
      → IsSafe (conclude board disk config i answer k).1.procs
  unfolding conclude
  conclude-IsSafe i (result value) k safe =
      Quiet-IsSafe k.procs _
        (Quiet-set k.procs i _ (QuietProc-same (proc_at k i) _ refl refl refl (λ h. h) (λ h. h)))
        safe
  conclude-IsSafe i again k safe = safe
  conclude-IsSafe i gone k safe = safe

  pub syscall-Safely :
      (i : ℕ) (k : Kernel B D)
      → IsSafe k.procs
      → alive (proc_at k i) ≡ true
      → Safely (syscall board disk config i k)
  unfolding syscall
  syscall-Safely i k safe lives =
      Safely-bind _ _ (dispatch-Safely _ i _ _ _ k safe lives)
        (λ answer k' safe'. Safely-returns _ _ (conclude-IsSafe i answer k' safe'))
