-- ===== src/Emulator/Pmp/Regions.antt =====
-- The region of a NAPOT entry.
use native.Mathlib.Nat.{pow-suc, one-le-pow, mod-add-mod, mul-mod_left, mod-eq_of_lt}
use tiny_processors.Prelude.{
  ℕ, suc, ◌+◌, ◌-◌, ◌*◌, ◌/◌, ◌%◌, ◌^◌, ◌<◌, ◌≡◌, sym, ap, ◌∙◌, arith, Bool-cases, ==_iff, ==-false,
  false, inl, inr, ◌==◌, bit_xor,
}
use tiny_processors.Prelude.Bits.{
  bit_xor_self, bit_xor_zero, bit_xor-div, bit_xor-add_one, bit_and-high_mask, bit_xor-lt, flip,
  two_pow-add,
}
use tiny_processors.Emulator.Pmp.{napot_match}

module _ (t j at : ℕ) (e : j + suc t ≡ 32) (ha : at < 2 ^ 32)
    (shape : at % 2 ^ suc t ≡ 2 ^ t - 1) where
  two_parts : 2 ^ j * 2 ^ suc t ≡ 2 ^ 32
  two_parts = sym (two_pow-add j (suc t)) ∙ ap (λ (n : ℕ). 2 ^ n) e

  -- The zero above the ones keeps the increment inside the word.
  no_carry : at + 1 < 2 ^ 32
  no_carry = elim (Bool-cases (at + 1 == 2 ^ 32)) [
    | inl full ↦ absurd (
        omega (
          arith,
          mod-add-mod at (2 ^ suc t) 1,
          ap (λ (n : ℕ). n % 2 ^ suc t) (wraps ((==_iff (at + 1) (2 ^ 32)).0 full)),
          mul-mod_left (2 ^ j) (2 ^ suc t),
          mod-eq_of_lt fits,
          one-le-pow t 2,
          ap (λ (n : ℕ). (n + 1) % 2 ^ suc t) shape,
        ))
    | inr room ↦ ground arith
  ]
    where
      fits : 2 ^ t - 1 + 1 < 2 ^ suc t
      fits = omega (arith, pow-suc 2 t, one-le-pow t 2)

      wraps : at + 1 ≡ 2 ^ 32 → at + 1 ≡ 2 ^ j * 2 ^ suc t
      wraps h = h ∙ sym two_parts

  mask : flip 32 (bit_xor at ((at + 1) % 2 ^ 32)) ≡ (2 ^ j - 1) * 2 ^ suc t
  mask =
      rw (mod-eq_of_lt no_carry, bit_xor-add_one t at shape)
        (omega (arith, two_parts, one-le-pow (suc t) 2, ap (λ (n : ℕ). n * 2 ^ suc t) less_one))
    where
      less_one : 2 ^ j - 1 + 1 ≡ 2 ^ j
      less_one = omega (arith, one-le-pow j 2)

some_differ : (x m : ℕ) → 0 < m → ¬ (x ≡ 0) → (x * m == 0) ≡ false
some_differ x m pos nonzero = ==-false (x * m) 0 (grind arith)

-- For 32-bit words `word` and `at` where `at` ends in a zero and `t` ones, with `t` at most 31,
-- the NAPOT test is true exactly when `word` is in the aligned region of 2 ^ (t + 1) words that
-- `at` is in.
pub napot_match_lem :
    (t j word at : ℕ)
    → j + suc t ≡ 32
    → word < 2 ^ 32
    → at < 2 ^ 32
    → at % 2 ^ suc t ≡ 2 ^ t - 1
    → napot_match word at ≡ (word / 2 ^ suc t == at / 2 ^ suc t)
unfolding napot_match
napot_match_lem t j word at e hw ha shape =
    rw
      (
        mask t j at e ha shape,
        bit_and-high_mask j (suc t) (bit_xor word at)
            (rw (two_parts t j at e ha shape) (bit_xor-lt 32 word at hw ha)),
        bit_xor-div (suc t) word at,
      )
      (zero_iff_same (word / 2 ^ suc t) (at / 2 ^ suc t) (2 ^ suc t)
        (one-le-pow (suc t) 2 (omega arith)))
  where
    zero_iff_same : (a b m : ℕ) → 0 < m → (bit_xor a b * m == 0) ≡ (a == b)
    zero_iff_same a b m pos = elim (Bool-cases (a == b)) [
      | inl same ↦ let e : a ≡ b = (==_iff a b).0 same in rw (e, bit_xor_self b) (ground arith)
      | inr other ↦
          rw other (some_differ (bit_xor a b) m pos (λ z. ground (arith, bit_xor_zero a b)))
    ]
