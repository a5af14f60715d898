-- ===== src/Runtime.antt =====
-- programs/rv32/rt/muldiv.c: multiply and divide in software, for an RV32I without the M
-- extension. A word is its number below 2 ^ 32; an `int32_t` is the word with its bit pattern.
mod Tests
pub mod Multiply
pub mod Divide
use tiny_processors.Prelude.{
  ℕ, zero, suc, ◌+◌, ◌-◌, ◌*◌, ◌/◌, ◌%◌, ◌^◌, Bool, ◌||◌, Option, none, some, leb, ◌==◌, ◌!=◌,
  if◌then◌else◌, bit_and, bit_or,
}

-- `while (b != 0) { if (b & 1u) product += a; a <<= 1; b >>= 1; }`; `none` is out of fuel.
pub mul_loop : ℕ → ℕ → ℕ → ℕ → Option ℕ
mul_loop zero a b product = none
mul_loop (suc fuel) a b product =
    let rest =
      mul_loop fuel (a * 2 % 2 ^ 32) (b / 2)
        (if bit_and b 1 != 0 then (product + a) % 2 ^ 32 else product) in
    if b == 0 then some product else rest

-- A word has 32 bits, so `b` is 0 after 32 rounds.
unfoldable pub rv32_mul : ℕ → ℕ → Option ℕ
rv32_mul a b = mul_loop 33 a b 0

-- The state of `udivmod`'s loop, and its result.
pub record QuotRem : Type 0 where
  pub quotient : ℕ
  pub rem : ℕ

-- One round, at bit `bit`.
pub udivmod_round : ℕ → ℕ → ℕ → QuotRem → QuotRem
udivmod_round n d bit s =
    let high = s.rem / 2 ^ 31 in
    let rem = bit_or (s.rem * 2 % 2 ^ 32) (bit_and (n / 2 ^ bit) 1) in
    if high != 0 || leb d rem
    then record { quotient = bit_or s.quotient (2 ^ bit); rem = (rem + 2 ^ 32 - d) % 2 ^ 32 }
    else record { quotient = s.quotient; rem = rem }

-- `for (int bit = 31; bit >= 0; bit--)`, by the rounds left: `bit + 1`.
pub udivmod_loop : ℕ → ℕ → ℕ → QuotRem → QuotRem
udivmod_loop n d zero s = s
udivmod_loop n d (suc bit) s = udivmod_loop n d bit (udivmod_round n d bit s)

pub udivmod : ℕ → ℕ → QuotRem
udivmod n d = udivmod_loop n d 32 (record { quotient = 0; rem = 0 })

unfoldable pub rv32_divu : ℕ → ℕ → ℕ
rv32_divu n d = if d == 0 then 0xffff_ffff else (udivmod n d).quotient

unfoldable pub rv32_remu : ℕ → ℕ → ℕ
rv32_remu n d = if d == 0 then n else (udivmod n d).rem

-- `0u - x`
abbrev pub negate : ℕ → ℕ
negate x = (2 ^ 32 - x) % 2 ^ 32

-- `value < 0` of an `int32_t`
abbrev pub is_negative : ℕ → Bool
is_negative value = leb (2 ^ 31) value

unfoldable pub magnitude : ℕ → ℕ
magnitude value = if is_negative value then negate value else value

abbrev differ_in_sign : Bool → Bool → Bool
differ_in_sign n d = if n then (if d then Bool.false else Bool.true) else d

unfoldable pub rv32_div : ℕ → ℕ → ℕ
unfolding magnitude
rv32_div n d =
    if d == 0
    then 0xffff_ffff
    else let quotient = (udivmod (magnitude n) (magnitude d)).quotient in
      if differ_in_sign (is_negative n) (is_negative d) then negate quotient else quotient

unfoldable pub rv32_rem : ℕ → ℕ → ℕ
unfolding magnitude
rv32_rem n d =
    if d == 0
    then n
    else let rem = (udivmod (magnitude n) (magnitude d)).rem in
      if is_negative n then negate rem else rem
