-- ===== src/Emulator/Step/Cycle/Interrupts.antt =====
-- An enabled interrupt is one of the six of `order`, so `step` never aborts.
use tiny_processors.Prelude.{
  ℕ, zero, suc, ◌/◌, ◌≤◌, ◌≡◌, ◌≢◌, inl, inr, refl, arith, Bool, true, false, ◌&&◌, ◌||◌, none,
  some, ltb, ◌==◌, ◌!=◌, if◌then◌else◌, bit_and, Bool-cases, Option-cases,
}
use tiny_processors.Prelude.Bits.{test, has, flip, has-shr, test-and, test-zero}
use tiny_processors.Emulator.Bus.{Emu, Engines}
use tiny_processors.Emulator.Csr.{Machine, mip_now}
use tiny_processors.Emulator.Hart.{mie_mask, mstatus_mie, mstatus_sie}
use tiny_processors.Emulator.Hart.Legal.{IsLegal}
use tiny_processors.Emulator.Pmp.{priv_u, priv_s, priv_m}
use tiny_processors.Emulator.Step.Execute.{FloatUnit}
use tiny_processors.Emulator.Step.Cycle
use tiny_processors.Emulator.Step.Cycle.Legal.{prepare-IsLegal}

-- A word with no bit outside the six interrupts.
abbrev IsMasked : ℕ → Type 0
IsMasked x = (k : ℕ) → test x k ≡ true → test mie_mask k ≡ true

among_zero : IsMasked 0
among_zero k h = ground (arith, test-zero k)

among_left : (x y : ℕ) → IsMasked x → IsMasked (bit_and x y)
among_left x y f k h = f k (ground (arith, test-and x y k))

among_right : (x y : ℕ) → IsMasked y → IsMasked (bit_and x y)
among_right x y f k h = f k (ground (arith, test-and x y k))

among_if : (b : Bool) (x y : ℕ) → IsMasked x → IsMasked y → IsMasked (if b then x else y)
among_if true x y f g = f
among_if false x y f g = g

enabled_interrupts-IsMasked : (m : Machine) → IsLegal m.hart → IsMasked (Cycle.enabled_interrupts m)
unfolding Cycle.enabled_interrupts
enabled_interrupts-IsMasked m l =
    let h = m.hart in
    let pending = if h.in_trap then 0 else bit_and (mip_now m) h.mie in
    let some_pending = among_if h.in_trap 0 _ among_zero (among_right (mip_now m) h.mie l.mie) in
    let machine_level =
      among_if (ltb h.priv priv_m || has h.mstatus mstatus_mie) _ 0
        (among_left pending (flip 32 h.mideleg) some_pending) among_zero in
    let supervisor_level =
      among_if (h.priv == priv_u || h.priv == priv_s && has h.mstatus mstatus_sie) _ 0
        (among_left pending h.mideleg some_pending) among_zero in
    among_if _ _ _ machine_level supervisor_level

-- The bits of the mask are those of the codes.
pub mask_bits :
    (k : ℕ)
    → test mie_mask k ≡ true
    → (k == 1 || k == 3 || k == 5 || k == 7 || k == 9 || k == 11) ≡ true
unfolding test
mask_bits zero h = cc
mask_bits (suc zero) h = refl
mask_bits (suc (suc zero)) h = cc
mask_bits (suc (suc (suc zero))) h = refl
mask_bits (suc (suc (suc (suc zero)))) h = cc
mask_bits (suc (suc (suc (suc (suc zero))))) h = refl
mask_bits (suc (suc (suc (suc (suc (suc zero)))))) h = cc
mask_bits (suc (suc (suc (suc (suc (suc (suc zero))))))) h = refl
mask_bits (suc (suc (suc (suc (suc (suc (suc (suc zero)))))))) h = cc
mask_bits (suc (suc (suc (suc (suc (suc (suc (suc (suc zero))))))))) h = refl
mask_bits (suc (suc (suc (suc (suc (suc (suc (suc (suc (suc zero)))))))))) h = cc
mask_bits (suc (suc (suc (suc (suc (suc (suc (suc (suc (suc (suc zero))))))))))) h = refl
mask_bits (suc (suc (suc (suc (suc (suc (suc (suc (suc (suc (suc (suc k)))))))))))) h =
    ground (arith, test-zero k)

-- A word under the mask with none of the six bits is zero.
no_code : (x k : ℕ) → IsMasked x → Cycle.first_enabled Cycle.order x ≡ none → test x k ≡ false
unfolding Cycle.first_enabled
no_code x k f nothing = ground (
  arith,
  mask_bits k,
  f k,
  has-shr x 1,
  has-shr x 3,
  has-shr x 5,
  has-shr x 7,
  has-shr x 9,
  has-shr x 11,
)

pub bitless : (n x : ℕ) → x ≤ n → ((k : ℕ) → test x k ≡ false) → x ≡ 0
unfolding test
bitless zero x h f = omega arith
bitless (suc n) x h f = ground (arith, f 0, bitless n (x / 2) (omega arith) (λ k. f (suc k)))

module _ {D : Type 0} (engines : Engines D) (rv32_fp : FloatUnit) where
  taken-some :
      (enabled : ℕ) (e : Emu D)
      → IsMasked enabled
      → (enabled != 0) ≡ true
      → Cycle.take_first engines rv32_fp enabled e ≢ none
  unfolding Cycle.take_first
  taken-some enabled e f pending = elim (Option-cases (Cycle.first_enabled Cycle.order enabled)) [
    | inr (code, found) ↦ rw (Cycle.take_first, found) cc
    | inl nothing ↦
        absurd
          (ground (arith, bitless enabled enabled (omega arith) (λ k. no_code enabled k f nothing)))
  ]

  step-some : (e : Emu D) → IsLegal e.machine.hart → Cycle.step engines rv32_fp e ≢ none
  unfolding Cycle.step
  step-some e l =
      elim (Bool-cases (Cycle.enabled_interrupts (Cycle.prepare engines rv32_fp e).machine != 0)) [
        | inr quiet ↦ rw (Cycle.step, quiet) cc
        | inl pending ↦
            rw (Cycle.step, pending)
              (taken-some _ _ (enabled_interrupts-IsMasked _ (prepare-IsLegal engines rv32_fp e l))
                pending)
      ]

  -- A step from a machine whose registers are legal has a result.
  pub step_returns :
      (e : Emu D) → IsLegal e.machine.hart → (e' : Emu D) × (Cycle.step engines rv32_fp e ≡ some e')
  step_returns e l = elim (Option-cases (Cycle.step engines rv32_fp e)) [
    | inl aborted ↦ absurd (step-some e l aborted)
    | inr found ↦ found
  ]
