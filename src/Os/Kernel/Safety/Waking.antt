-- ===== src/Os/Kernel/Safety/Waking.antt =====
-- The scheduler leaves the process table quiet.
use tiny_processors.Prelude.{
  ℕ, zero, suc, ◌+◌, ◌%◌, ◌≡◌, refl, ◌∙◌, inl, inr, arith, Bool, true, false, not, ◌&&◌, List, [],
  ◌∷◌, Option, none, some, if◌then◌else◌, Bool-cases, get_or,
}
use tiny_processors.Os.Kernel.{
  Kernel, Board, Proc, State, free, ready, running, blocked_read, blocked_wait, blocked_sleep,
  zombie, no_proc, is_free, is_ready, is_zombie, alive, drives, proc_at, with_proc, max_procs,
}
use tiny_processors.Os.Kernel.Schedule.{
  Asked, reads, sleeps, other, sleep_of, ask_console, ask_time, wakes, wake_loop, wake_blocked,
  engines_busy, known_busy, ready_loop, after, next_ready, protect, goes_on, choose, set_up,
  schedule,
}
use tiny_processors.Os.Kernel.Safety.{
  QuietProc, QuietProc-refl, QuietProc-same, Quiet, Quiet-refl, Quiet-same, Quiet-trans, Quiet-set,
}

-- A live process in another live state.
pub QuietProc-state : (p : Proc) (s : State) → alive p ≡ true → QuietProc p (record p { state = s })
QuietProc-state p s lives =
    QuietProc-same p (record p { state = s }) refl refl refl (λ h. lives) (λ h. ground arith)

pub ready-alive : (p : Proc) → is_ready p.state ≡ true → alive p ≡ true
ready-alive p h = ground arith

module _ {B : Type 0} (board : Board B) where
  wakes-alive : (p : Proc) (a : Asked B) → (wakes board p a).0 ≡ true → alive p ≡ true
  unfolding wakes
  wakes-alive p a = by_state p.state
    where
      by_state :
          (s : State)
          → (elim (sleep_of s) as (λ x. Bool × Asked B) [
            | reads ↦ ask_console board a
            | sleeps ↦ ask_time board p.wake a
            | other ↦ (false, a)
          ]).0
            ≡ true
          → (not (is_free s) && not (is_zombie s)) ≡ true
      by_state free h = cc
      by_state ready h = refl
      by_state running h = refl
      by_state blocked_read h = refl
      by_state blocked_wait h = refl
      by_state blocked_sleep h = refl
      by_state zombie h = cc

  wake_loop-Quiet : (procs : List Proc) (a : Asked B) → Quiet procs (wake_loop board procs a).0
  unfolding wake_loop
  wake_loop-Quiet [] a = Quiet-refl []
  wake_loop-Quiet (p ∷ rest) a = record { at = each (λ b. wake_loop-Quiet rest b) }
    where
      first : Proc
      first = if (wakes board p a).0 then record p { state = ready } else p

      first-Quiet : QuietProc p first
      first-Quiet = elim (Bool-cases (wakes board p a).0) [
        | inl woken ↦ rw woken (QuietProc-state p ready (wakes-alive p a woken))
        | inr asleep ↦ rw asleep (QuietProc-refl p)
      ]

      each :
          ((b : Asked B) → Quiet rest (wake_loop board rest b).0)
          → (i : ℕ)
          → QuietProc
              (get_or (p ∷ rest) i no_proc)
              (get_or (wake_loop board (p ∷ rest) a).0 i no_proc)
      each again zero = first-Quiet
      each again (suc i) = (again (wakes board p a).1).at i

module _ {B D : Type 0} (board : Board B) where
  wake_blocked-Quiet : (k : Kernel B D) → Quiet k.procs (wake_blocked board k).procs
  unfolding wake_blocked
  wake_blocked-Quiet k = wake_loop-Quiet board k.procs _

  pub engines_busy-procs : (k : Kernel B D) → (engines_busy board k).1.procs ≡ k.procs
  unfolding engines_busy
  engines_busy-procs k = ground arith

  known_busy-procs :
      (busy : Option Bool) (k : Kernel B D) → (known_busy board busy k).1.procs ≡ k.procs
  unfolding known_busy
  known_busy-procs none k = engines_busy-procs k
  known_busy-procs (some busy) k = refl

  -- What `next_ready` returns: a ready process of a table that it has not changed.
  abbrev pub Chosen : List Proc → Option ℕ × Kernel B D → Type 0
  Chosen procs (none, k') = k'.procs ≡ procs
  Chosen procs (some i, k') = (k'.procs ≡ procs) × (is_ready (get_or procs i no_proc).state ≡ true)

  ready_loop-Chosen :
      (left at : ℕ) (busy : Option Bool) (procs : List Proc) (k : Kernel B D)
      → k.procs ≡ procs
      → Chosen procs (ready_loop board left at busy k)
  unfolding ready_loop
  ready_loop-Chosen zero at busy procs k same = same
  ready_loop-Chosen (suc left) at busy procs k same =
      elim (Bool-cases (is_ready (proc_at k (at % max_procs)).state)) [
        | inr waits ↦
            rw (waits, Chosen, ready_loop) (ready_loop-Chosen left (at + 1) busy procs k same)
        | inl now ↦
            let now' : is_ready (get_or procs (at % max_procs) no_proc).state ≡ true =
              rw (← same) now in
            elim (Bool-cases (drives (proc_at k (at % max_procs)))) [
              | inl driving ↦ rw (now, driving, Chosen, ready_loop) (same, now')
              | inr plain ↦ elim (Bool-cases (known_busy board busy k).0) [
                | inl engaged ↦
                    rw (now, plain, engaged, Chosen, ready_loop)
                      (ready_loop-Chosen left (at + 1) (some true) procs (known_busy board busy k).1
                        (known_busy-procs busy k ∙ same))
                | inr idle ↦
                    rw (now, plain, idle, Chosen, ready_loop) (known_busy-procs busy k ∙ same, now')
              ]
            ]
      ]

  pub next_ready-Chosen :
      (from : Option ℕ) (k : Kernel B D) → Chosen k.procs (next_ready board from k)
  unfolding next_ready
  next_ready-Chosen from k = ready_loop-Chosen max_procs (after from) none k.procs k refl

  abbrev pub Calm : Kernel B D → Kernel B D → Type 0
  Calm k k' = Quiet k.procs k'.procs

  choose-Quiet : (k : Kernel B D) → Calm k (choose board k)
  unfolding choose
  choose-Quiet k = chosen (next_ready board k.current k) (next_ready-Chosen k.current k)
    where
      chosen :
          (r : Option ℕ × Kernel B D)
          → Chosen k.procs r
          → Calm k (elim r.0 [
            | none ↦ record (r.1) { current = none }
            | some i ↦ record (with_proc i (record (proc_at (r.1) i) { state = running }) (r.1)) {
              current = some i;
            }
          ])
      chosen (none, k') same = Quiet-same same
      chosen (some i, k') same = Quiet-trans (Quiet-same same.0) (
          Quiet-set k'.procs i _ (
            QuietProc-state (proc_at k' i) running (ready-alive (proc_at k' i) (rw same.0 same.1))))

  protect-procs : (i : ℕ) (k : Kernel B D) → (protect board i k).procs ≡ k.procs
  unfolding protect
  protect-procs i k = ground arith

  pub set_up-procs : (k : Kernel B D) → (set_up board k).procs ≡ k.procs
  unfolding set_up
  set_up-procs k = by_current k.current
    where
      by_current :
          (c : Option ℕ)
          → (elim c as (λ x. Kernel B D) [
            | none ↦ k
            | some i ↦
                protect board i
                  (if drives (proc_at k i) then record k { engines_used = true } else k)
          ]).procs
            ≡ k.procs
      by_current none = refl
      by_current (some i) = protect-procs i _ ∙ ground arith

  pub schedule-Quiet : (k : Kernel B D) → Calm k (schedule board k)
  unfolding schedule
  schedule-Quiet k = elim (Bool-cases (goes_on board (wake_blocked board k))) [
    | inl on ↦
        rw (on, schedule)
          (Quiet-trans (wake_blocked-Quiet k) (Quiet-same (set_up-procs (wake_blocked board k))))
    | inr off ↦
        rw (off, schedule)
          (Quiet-trans (wake_blocked-Quiet k) (
            Quiet-trans (choose-Quiet (wake_blocked board k))
              (Quiet-same (set_up-procs (choose board (wake_blocked board k))))))
  ]
