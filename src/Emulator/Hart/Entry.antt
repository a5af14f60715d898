-- ===== src/Emulator/Hart/Entry.antt =====
-- Trap entry on an interrupt: the mode, the cause, the return address and the handler.
use tiny_processors.Prelude.{ℕ, ◌≡◌, refl, true, false, ◌&&◌, ◌!=◌, bit_and}
use tiny_processors.Prelude.Bits.{test, has, has-shr}
use tiny_processors.Emulator.Hart.{Hart, interrupt, delegated, enter_handler}

pub delegated-interrupt :
    (cause k : ℕ) (h : Hart)
    → has cause interrupt ≡ true
    → bit_and cause 31 ≡ k
    → delegated cause h ≡ (h.priv != 3 && test h.mideleg k)
unfolding delegated
delegated-interrupt cause k h is_interrupt code =
    rw (delegated, is_interrupt, code, has-shr h.mideleg k) refl

pub enter_handler-to_s :
    (cause tval : ℕ) (h : Hart)
    → delegated cause h ≡ true
    → ((enter_handler cause tval h).priv ≡ 1)
      × ((enter_handler cause tval h).scause ≡ cause)
      × ((enter_handler cause tval h).sepc ≡ h.pc)
      × ((enter_handler cause tval h).pc ≡ h.stvec)
unfolding enter_handler
enter_handler-to_s cause tval h to_s = rw (enter_handler, to_s) (refl, refl, refl, refl)

pub enter_handler-to_m :
    (cause tval : ℕ) (h : Hart)
    → delegated cause h ≡ false
    → ((enter_handler cause tval h).priv ≡ 3)
      × ((enter_handler cause tval h).mcause ≡ cause)
      × ((enter_handler cause tval h).mepc ≡ h.pc)
      × ((enter_handler cause tval h).pc ≡ h.mtvec)
unfolding enter_handler
enter_handler-to_m cause tval h to_m = rw (enter_handler, to_m) (refl, refl, refl, refl)
