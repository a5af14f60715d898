-- ===== src/Emulator/Amo/Words.antt =====
-- An atomic operation that is admitted writes a word.
use tiny_processors.Prelude.{
  ℕ, ◌^◌, ◌<◌, ◌≡◌, ◌≢◌, ◌+◌, ◌%◌, arith, Bool, true, false, none, some, if◌then◌else◌, OnSome,
  on_some, Option-cases, inl, inr,
}
use tiny_processors.Prelude.Bits.{bit_and-lt, bit_or-lt, bit_xor-lt}
use tiny_processors.Emulator.Amo.{amo_valid, amo_value, amo_lr, amo_sc}

either-lt : (b : Bool) (x y : ℕ) → x < 2 ^ 32 → y < 2 ^ 32 → (if b then x else y) < 2 ^ 32
either-lt true x y hx hy = hx
either-lt false x y hx hy = hy

amo_value-lt :
    (funct5 old operand : ℕ)
    → old < 2 ^ 32
    → operand < 2 ^ 32
    → OnSome (λ (v : ℕ). v < 2 ^ 32) (amo_value funct5 old operand)
unfolding amo_value
amo_value-lt funct5 old operand ho hp =
    search
      (
        on_some,
        hp,
        mod_lt,
        bit_xor-lt 32 old operand ho hp,
        bit_and-lt 32 old operand ho,
        bit_or-lt 32 old operand ho hp,
        either-lt,
      )
      depth 24
  where
    mod_lt : (old + operand) % 2 ^ 32 < 2 ^ 32
    mod_lt = omega arith

amo_value_given :
    (funct5 rs2 old operand : ℕ)
    → amo_valid funct5 rs2 ≡ true
    → funct5 ≢ amo_lr
    → funct5 ≢ amo_sc
    → amo_value funct5 old operand ≢ none
unfolding amo_valid amo_value
amo_value_given funct5 rs2 old operand v lr sc h = ground arith

-- A word that the operation writes.
pub record Writes (funct5 old operand : ℕ) : Type 0 where
  pub value : ℕ
  pub given : amo_value funct5 old operand ≡ some value
  pub is_word : value < 2 ^ 32

-- For a funct5 that `amo_valid` admits, other than LR and SC, and 32-bit words `old` and
-- `operand`, `amo_value` does not reach its abort, and its value is a 32-bit word.
pub amo_value-Writes :
    (funct5 rs2 old operand : ℕ)
    → amo_valid funct5 rs2 ≡ true
    → funct5 ≢ amo_lr
    → funct5 ≢ amo_sc
    → old < 2 ^ 32
    → operand < 2 ^ 32
    → Writes funct5 old operand
amo_value-Writes funct5 rs2 old operand v lr sc ho hp =
    elim (Option-cases (amo_value funct5 old operand)) [
      | inl aborts ↦ absurd (amo_value_given funct5 rs2 old operand v lr sc aborts)
      | inr (value, given) ↦ record {
        value = value;
        given = given;
        is_word = (amo_value-lt funct5 old operand ho hp).at value given;
      }
    ]
