-- ===== src/Os/Kernel/Safety/Asking.antt =====
-- The system calls on devices and processes, but for a spawn, leave the process table quiet.
use tiny_processors.Prelude.{
  ℕ, zero, suc, ◌+◌, ◌%◌, ◌≡◌, refl, ◌∙◌, ap, inl, inr, arith, true, not, ◌&&◌, ◌||◌, ◌==◌, ◌!=◌,
  Bool-cases, get_or, set, get_or-set,
}
use tiny_processors.Os.Kernel.{
  Kernel, Board, Config, Proc, free, ready, no_proc, is_free, is_zombie, alive, proc_at, space_at,
  with_proc, max_procs,
}
use tiny_processors.Os.Kernel.Memory.{user_range}
use tiny_processors.Os.Kernel.Process.{write_palette}
use tiny_processors.Os.Kernel.Schedule.{engines_busy}
use tiny_processors.Os.Kernel.Calls.Devices.{
  event_call, time_call, keys_call, present_call, read_loop, palette_call,
}
use tiny_processors.Os.Kernel.Calls.Processes.{
  sbrk_call, wait_loop, wait_call, list_call, yield_call, sleep_call, ps_call,
}
use tiny_processors.Os.Kernel.Safety.{QuietProc-same, Quiet-set}
use tiny_processors.Os.Kernel.Safety.Returns.{Asks, Asks-same, Asks-returns, Asks-if, Asks-after}
use tiny_processors.Os.Kernel.Safety.Waking.{QuietProc-state, engines_busy-procs}
use tiny_processors.Os.Kernel.Safety.Ending.{QuietProc-free}

module _ {B D : Type 0} where
  pub event_call-Quiet : (k : Kernel B D) → Asks k (event_call k)
  unfolding event_call
  event_call-Quiet k = Asks-if k _ _ _ (Asks-same k _ _ refl) (Asks-same k _ _ refl)

  pub sbrk_call-Quiet : (i a0 : ℕ) (k : Kernel B D) → Asks k (sbrk_call i a0 k)
  unfolding sbrk_call
  sbrk_call-Quiet i a0 k =
      Asks-if k _ _ _
        (Asks-returns k _ _
          (Quiet-set k.procs i _ (QuietProc-same (proc_at k i) _ refl refl refl (λ h. h) (λ h. h))))
        (Asks-same k _ _ refl)

  wait_loop-Quiet :
      (left j i a0 value : ℕ) (k : Kernel B D)
      → alive (proc_at k i) ≡ true
      → Asks k (wait_loop left j i a0 value k)
  unfolding wait_loop
  wait_loop-Quiet zero j i a0 value k lives = Asks-same k _ _ refl
  wait_loop-Quiet (suc left) j i a0 value k lives =
      elim (Bool-cases
        (is_free child.state || child.pid != a0 || child.parent != (proc_at k i).pid)) [
          | inl other ↦ rw (other, wait_loop) (wait_loop-Quiet left (j + 1) i a0 value k lives)
          | inr found ↦ elim (Bool-cases (is_zombie child.state)) [
            | inr runs ↦
                rw (found, runs, wait_loop)
                  (Asks-returns k _ _ (
                    Quiet-set k.procs i _ (
                      QuietProc-same (proc_at k i) _ refl refl refl (λ h. lives)
                        (λ h. ground arith))))
            | inl ended ↦
                rw (found, ended, wait_loop)
                  (Asks-after k (with_proc j freed k) _
                    (Quiet-set k.procs j freed (QuietProc-free child))
                    (wait_loop-Quiet left (j + 1) i a0 child.exit_code (with_proc j freed k)
                      (still ended)))
          ]
        ]
    where
      child : Proc
      child = proc_at k j

      freed : Proc
      freed = record child { state = free }

      still : is_zombie child.state ≡ true → alive (get_or (set k.procs j freed) i no_proc) ≡ true
      still ended = ap alive (get_or-set k.procs j i freed no_proc) ∙ ground arith

  pub wait_call-Quiet :
      (i a0 : ℕ) (k : Kernel B D) → alive (proc_at k i) ≡ true → Asks k (wait_call i a0 k)
  unfolding wait_call
  wait_call-Quiet i a0 k lives = wait_loop-Quiet max_procs 0 i a0 _ k lives

  pub list_call-Quiet :
      (config : Config) (i a0 a1 a2 : ℕ) (k : Kernel B D) → Asks k (list_call config i a0 a1 a2 k)
  unfolding list_call
  list_call-Quiet config i a0 a1 a2 k =
      Asks-if k _ _ _ (Asks-same k _ _ refl) (Asks-same k _ _ refl)

  pub yield_call-Quiet :
      (i : ℕ) (k : Kernel B D) → alive (proc_at k i) ≡ true → Asks k (yield_call i k)
  unfolding yield_call
  yield_call-Quiet i k lives =
      Asks-returns k _ _ (Quiet-set k.procs i _ (QuietProc-state (proc_at k i) ready lives))

  pub ps_call-Quiet : (i a0 a1 a2 : ℕ) (k : Kernel B D) → Asks k (ps_call i a0 a1 a2 k)
  unfolding ps_call
  ps_call-Quiet i a0 a1 a2 k = Asks-if k _ _ _ (Asks-same k _ _ refl) (Asks-same k _ _ refl)

  module _ (board : Board B) where
    pub sleep_call-Quiet :
        (i a0 : ℕ) (k : Kernel B D) → alive (proc_at k i) ≡ true → Asks k (sleep_call board i a0 k)
    unfolding sleep_call
    sleep_call-Quiet i a0 k lives = Asks-returns k _ _ (
        Quiet-set k.procs i _
          (QuietProc-same (proc_at k i) _ refl refl refl (λ h. lives) (λ h. ground arith)))

    pub time_call-Quiet : (k : Kernel B D) → Asks k (time_call board k)
    unfolding time_call
    time_call-Quiet k = Asks-same k _ _ refl

    module _ (config : Config) where
      read_loop-procs :
          (left i at : ℕ) (k : Kernel B D) → (read_loop board config left i at k).procs ≡ k.procs
      unfolding read_loop
      read_loop-procs zero i at k = refl
      read_loop-procs (suc left) i at k = read_loop-procs left (i + 1) at _

      pub keys_call-Quiet : (k : Kernel B D) → Asks k (keys_call board config k)
      unfolding keys_call
      keys_call-Quiet k = Asks-if k _ _ _ (Asks-same k _ _ refl) (Asks-same k _ _ refl)

      pub present_call-Quiet : (k : Kernel B D) → Asks k (present_call board config k)
      unfolding present_call
      present_call-Quiet k = elim (Bool-cases (not config.has_display)) [
        | inl missing ↦ rw (missing, present_call) (Asks-same k k _ refl)
        | inr has ↦ elim (Bool-cases (engines_busy board k).0) [
          | inl busy ↦ rw (has, busy, present_call) (Asks-same k _ _ (engines_busy-procs board k))
          | inr idle ↦ rw (has, idle, present_call) (Asks-same k _ _ (engines_busy-procs board k))
        ]
      ]

      pub palette_call-Quiet :
          (i a0 a1 : ℕ) (k : Kernel B D) → Asks k (palette_call board config i a0 a1 k)
      unfolding palette_call write_palette
      palette_call-Quiet i a0 a1 k =
          elim (Bool-cases (
            config.has_palette
            && a0 % 4 == 0
            && user_range (proc_at k i).base (proc_at k i).span (space_at k i).guard a0 1024)) [
              | inr refused ↦ rw (refused, palette_call) (Asks-same k k _ refl)
              | inl allowed ↦ elim (Bool-cases (a1 == 0)) [
                | inl reads ↦
                    rw (allowed, reads, palette_call) (Asks-same k _ _ (read_loop-procs 256 0 a0 k))
                | inr reads_not ↦ elim (Bool-cases (a1 == 1)) [
                  | inl writes ↦
                      rw (allowed, reads_not, writes, palette_call) (Asks-same k _ _ refl)
                  | inr neither ↦
                      rw (allowed, reads_not, neither, palette_call) (Asks-same k k _ refl)
                ]
              ]
            ]
