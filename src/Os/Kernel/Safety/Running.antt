-- ===== src/Os/Kernel/Safety/Running.antt =====
-- The scheduler leaves a current process that runs, or none.
use tiny_processors.Prelude.{
  ℕ, zero, suc, ◌≡◌, refl, sym, ◌∙◌, ap, inl, inr, arith, true, ◌&&◌, ◌==◌, ltb, Bool-cases,
  Option-cases, get_or, set, Option, none, some, List, [], ◌∷◌, length, get_or-set,
}
use tiny_processors.Os.Kernel.{
  Kernel, Board, Proc, running, no_proc, is_ready, is_running, proc_at, with_proc,
}
use tiny_processors.Os.Kernel.Schedule.{
  wake_blocked, next_ready, protect, goes_on, choose, set_up, schedule,
}
use tiny_processors.Os.Kernel.Safety.{IsSafe, Quiet-IsSafe}
use tiny_processors.Os.Kernel.Safety.Waking.{
  Chosen, next_ready-Chosen, schedule-Quiet, set_up-procs,
}

-- The promise of the table, and that the current process runs.
pub record IsSound {B D : Type 0} (k : Kernel B D) : Type 0 where
  pub safe : IsSafe k.procs
  pub runs : (i : ℕ) → k.current ≡ some i → is_running (proc_at k i).state ≡ true

ready-inside :
    (procs : List Proc) (i : ℕ)
    → is_ready (get_or procs i no_proc).state ≡ true
    → ltb i (length procs) ≡ true
ready-inside [] i h = cc
ready-inside (p ∷ rest) zero h = ground arith
ready-inside (p ∷ rest) (suc i) h =
    let inside : ltb i (length rest) ≡ true = ready-inside rest i h in ground arith

module _ {B D : Type 0} (board : Board B) where
  choose-runs :
      (k : Kernel B D) (i : ℕ)
      → (choose board k).current ≡ some i
      → is_running (proc_at (choose board k) i).state ≡ true
  unfolding choose
  choose-runs k = chosen (next_ready board k.current k) (next_ready-Chosen board k.current k)
    where
      goes : Option ℕ × Kernel B D → Kernel B D
      goes r = elim r.0 [
        | none ↦ record (r.1) { current = none }
        | some i ↦ record (with_proc i (record (proc_at (r.1) i) { state = running }) (r.1)) {
          current = some i;
        }
      ]

      chosen :
          (r : Option ℕ × Kernel B D)
          → Chosen board k.procs r
          → (i : ℕ) → (goes r).current ≡ some i
          → is_running (proc_at (goes r) i).state ≡ true
      chosen (none, k') same i h = cc
      chosen (some j, k') same i h =
          let here : j ≡ i = cc in
          let inside : ltb j (length k.procs) ≡ true = ready-inside k.procs j same.1 in
          let test : (j == i && ltb j (length k'.procs)) ≡ true = rw same.0 (ground arith) in
          let p : Proc = record (proc_at k' j) { state = running } in
          let set_here : get_or (set k'.procs j p) i no_proc ≡ p =
            get_or-set k'.procs j i p no_proc ∙ rw test refl in
          ap (λ q. is_running q.state) set_here

  set_up-current : (k : Kernel B D) → (set_up board k).current ≡ k.current
  unfolding set_up protect
  set_up-current k = elim (Option-cases k.current) [
    | inl idle ↦ rw (idle, set_up) idle
    | inr i ↦ ground arith
  ]

  set_up-runs :
      (k : Kernel B D)
      → ((i : ℕ) → k.current ≡ some i → is_running (proc_at k i).state ≡ true)
      → (i : ℕ) → (set_up board k).current ≡ some i
      → is_running (proc_at (set_up board k) i).state ≡ true
  set_up-runs k runs i now =
      ap (λ l. is_running (get_or l i no_proc).state) (set_up-procs board k)
      ∙ runs i (sym (set_up-current k) ∙ now)

  goes_on-runs :
      (k : Kernel B D)
      → goes_on board k ≡ true
      → (i : ℕ) → k.current ≡ some i
      → is_running (proc_at k i).state ≡ true
  unfolding goes_on
  goes_on-runs k on i now = rw (now, goes_on) at on

  schedule-runs :
      (k : Kernel B D) (i : ℕ)
      → (schedule board k).current ≡ some i
      → is_running (proc_at (schedule board k) i).state ≡ true
  unfolding schedule
  schedule-runs k = elim (Bool-cases (goes_on board woken)) [
    | inl on ↦ rw (on, schedule) (set_up-runs woken (goes_on-runs woken on))
    | inr off ↦ rw (off, schedule) (set_up-runs (choose board woken) (choose-runs woken))
  ]
    where
      woken : Kernel B D
      woken = wake_blocked board k

  pub schedule-IsSound : (k : Kernel B D) → IsSafe k.procs → IsSound (schedule board k)
  schedule-IsSound k safe = record {
    safe = Quiet-IsSafe k.procs _ (schedule-Quiet board k) safe;
    runs = schedule-runs k;
  }
