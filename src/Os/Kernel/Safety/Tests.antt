-- ===== src/Os/Kernel/Safety/Tests.antt =====
-- A trap of a machine with two processes.
use tiny_processors.Prelude.{
  ℕ, zero, suc, ◌≡◌, ◌≢◌, refl, ◌⊎◌, inl, inr, arith, true, some, get_or, get_or-replicate,
}
use tiny_processors.Os.Kernel.{Proc, no_proc, is_running, alive, proc_at}
use tiny_processors.Os.Kernel.Trap.{exception, kernel_trap}
use tiny_processors.Os.Kernel.Safety.{Apart, Shared, file_at, is_open}
use tiny_processors.Os.Kernel.Safety.Returns.{OnReturn}
use tiny_processors.Os.Kernel.Safety.Running.{IsSound}
use tiny_processors.Os.Kernel.Safety.Trapping.{kernel_trap-IsSound}
use tiny_processors.Os.Kernel.Samples.{broken_disk, quiet_board, plain_config, kernel}

past : (i : ℕ) → get_or kernel.procs (suc (suc i)) no_proc ≡ no_proc
past i = get_or-replicate {A = Proc} 6 i no_proc

kernel-IsSound : IsSound kernel
kernel-IsSound = record { safe = record { slots = slots; files = files }; runs = runs }
  where
    slots :
        (i j : ℕ)
        → i ≢ j
        → alive (get_or kernel.procs i no_proc) ≡ true
        → alive (get_or kernel.procs j no_proc) ≡ true
        → Apart (get_or kernel.procs i no_proc) (get_or kernel.procs j no_proc)
    slots zero zero differ u v = absurd (differ refl)
    slots zero (suc zero) differ u v = inl (omega arith)
    slots (suc zero) zero differ u v = inr (omega arith)
    slots (suc zero) (suc zero) differ u v = absurd (differ refl)
    slots (suc (suc i)) j differ u v = let w : alive no_proc ≡ true = rw (past i) at u in cc
    slots i (suc (suc j)) differ u v = let w : alive no_proc ≡ true = rw (past j) at v in cc

    closed : (i f : ℕ) → is_open (get_or kernel.procs i no_proc) f ≡ true → ⊥
    closed zero f h = cc
    closed (suc zero) f h = cc
    closed (suc (suc i)) f h = let w : is_open no_proc f ≡ true = rw (past i) at h in cc

    files :
        (i j f g : ℕ)
        → (i ≢ j) ⊎ (f ≢ g)
        → is_open (get_or kernel.procs i no_proc) f ≡ true
        → is_open (get_or kernel.procs j no_proc) g ≡ true
        → Shared
            (file_at (get_or kernel.procs i no_proc) f)
            (file_at (get_or kernel.procs j no_proc) g)
    files i j f g differ u v = absurd (closed i f u)

    runs : (i : ℕ) → kernel.current ≡ some i → is_running (proc_at kernel i).state ≡ true
    runs zero now = refl
    runs (suc i) now = let bad : 0 ≡ suc i = cc in cc

kernel_trap-IsSound_example :
    OnReturn
      (λ u k'. IsSound k')
      (kernel_trap quiet_board plain_config broken_disk 4 (some 0) (exception 8 0) kernel)
kernel_trap-IsSound_example =
    kernel_trap-IsSound quiet_board broken_disk plain_config 4 (exception 8 0) kernel kernel-IsSound
