-- ===== src/Emulator/Hart/Gates.antt =====
-- The ways into a higher privilege, and what a trap and SRET keep of machine mode's configuration.
use tiny_processors.Prelude.{
  ℕ, ◌≡◌, ◌≢◌, ◌≤◌, ◌⊎◌, refl, arith, inl, inr, true, List, [], ◌∷◌, Bool-cases,
}
use tiny_processors.Emulator.Pmp.{Pmp, priv_s, priv_m}
use tiny_processors.Emulator.Hart.{Hart, delegated, enter_handler, sret, supervisor_allows}

-- What machine mode has configured for the modes below it.
abbrev pub configuration : Hart → (List ℕ × Pmp)
configuration h = (h.medeleg ∷ h.mideleg ∷ h.mtvec ∷ h.mscratch ∷ h.mcounteren ∷ [], h.pmp)

-- The privilege does not rise, or it rises at a trap vector.
abbrev pub IsGated : Hart → Hart → Type 0
IsGated g h =
    (h.priv ≤ g.priv)
    ⊎ (((h.priv ≡ priv_s) × (h.pc ≡ g.stvec)) ⊎ ((h.priv ≡ priv_m) × (h.pc ≡ g.mtvec)))

pub enter_handler-configuration :
    (cause tval : ℕ) (h : Hart) → configuration (enter_handler cause tval h) ≡ configuration h
unfolding enter_handler
enter_handler-configuration cause tval h = elim (Bool-cases (delegated cause h)) [
  | inl on ↦ rw (enter_handler, on) refl
  | inr off ↦ rw (enter_handler, off) refl
]

pub enter_handler-IsGated : (cause tval : ℕ) (h : Hart) → IsGated h (enter_handler cause tval h)
unfolding enter_handler
enter_handler-IsGated cause tval h = elim (Bool-cases (delegated cause h)) [
  | inl on ↦ rw (enter_handler, on) (inr (inl (refl, refl)))
  | inr off ↦ rw (enter_handler, off) (inr (inr (refl, refl)))
]

pub sret-configuration : (h : Hart) → configuration (sret h) ≡ configuration h
unfolding sret
sret-configuration h = refl

pub sret-priv :
    (trap_bit : ℕ) (h : Hart)
    → supervisor_allows trap_bit h ≡ true
    → h.priv ≢ priv_m
    → (sret h).priv ≤ h.priv
unfolding sret supervisor_allows
sret-priv trap_bit h allowed below = ground arith
