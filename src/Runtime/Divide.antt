-- ===== src/Runtime/Divide.antt =====
-- `udivmod` divides: one quotient bit for each round.
use native.Mathlib.Nat.{pow-suc, one-le-pow, div-div-eq-div-mul, div-eq_of_lt-le}
use native.Mathlib.Nat.{mul-add-mod_self_right, mod-eq_of_lt}
use tiny_processors.Prelude.{
  ℕ, zero, suc, ◌+◌, ◌*◌, ◌/◌, ◌%◌, ◌^◌, ◌<◌, ◌≡◌, refl, ap, ◌∙◌, sym, arith, bit_and, bit_or,
  Bool-cases, inl, inr, ◌!=◌, ◌||◌, leb,
}
use tiny_processors.Prelude.Bits.{bit_and-mask, bit_or-add}
use tiny_processors.Runtime.{QuotRem, udivmod_round, udivmod_loop, udivmod}

-- With `left` rounds to go, the upper bits of `n` have been divided, and the quotient so far
-- stands in the bits that are done.
pub record IsDivided (n d left : ℕ) (s : QuotRem) : Type 0 where
  pub upper : ℕ
  pub quotient_bits : s.quotient ≡ upper * 2 ^ left
  pub divides : n / 2 ^ left ≡ upper * d + s.rem
  pub rem_lt : s.rem < d

-- The next bit of the dividend.
next_bit : (n bit : ℕ) → n / 2 ^ bit ≡ n / 2 ^ suc bit * 2 + bit_and (n / 2 ^ bit) 1
next_bit n bit = omega (
  arith,
  bit_and-mask 1 (n / 2 ^ bit),
  div-div-eq-div-mul n (2 ^ bit) 2,
  ap (λ (t : ℕ). n / t) (pow-suc 2 bit),
)

-- The shifted-in bit does not overlap.
shift_in : (rem b : ℕ) → b < 2 → bit_or (rem * 2 % 2 ^ 32) b ≡ rem * 2 % 2 ^ 32 + b
shift_in rem b h = even (rem * 2 % 2 ^ 32) (omega arith)
  where
    even : (x : ℕ) → x % 2 ≡ 0 → bit_or x b ≡ x + b
    even x e = rw halved (bit_or-add 1 (x / 2) b h)
      where
        halved : x ≡ x / 2 * 2
        halved = omega arith

udivmod_round-IsDivided :
    (n d bit : ℕ) (s : QuotRem)
    → d < 2 ^ 32
    → IsDivided n d (suc bit) s
    → IsDivided n d bit (udivmod_round n d bit s)
unfolding udivmod_round
udivmod_round-IsDivided n d bit s hd v =
    let b = bit_and (n / 2 ^ bit) 1 in
    let rem = bit_or (s.rem * 2 % 2 ^ 32) b in
    let small : b < 2 = omega (arith, bit_and-mask 1 (n / 2 ^ bit)) in
    let joined : rem ≡ s.rem * 2 % 2 ^ 32 + b = shift_in s.rem b small in
    elim (Bool-cases (s.rem / 2 ^ 31 != 0 || leb d rem)) [
      | inl take ↦ rw take record {
        upper = v.upper * 2 + 1;
        quotient_bits = ground (
          arith,
          v.quotient_bits,
          bit_or-add (suc bit) v.upper (2 ^ bit) (omega (arith, pow-suc 2 bit, one-le-pow bit 2)),
          pow-suc 2 bit,
          ap (λ (t : ℕ). v.upper * t) (pow-suc 2 bit),
        );
        divides = ground (arith, next_bit n bit, v.divides, v.rem_lt, joined, small);
        rem_lt = ground (arith, v.rem_lt, joined, small);
      }
      | inr leave ↦ rw leave record {
        upper = v.upper * 2;
        quotient_bits =
            ground (arith, v.quotient_bits, ap (λ (t : ℕ). v.upper * t) (pow-suc 2 bit));
        divides = ground (arith, next_bit n bit, v.divides, joined, small);
        rem_lt = ground (arith, v.rem_lt, joined, small);
      }
    ]

pub udivmod_loop-IsDivided :
    (n d left : ℕ) (s : QuotRem)
    → d < 2 ^ 32
    → IsDivided n d left s
    → IsDivided n d 0 (udivmod_loop n d left s)
unfolding udivmod_loop
udivmod_loop-IsDivided n d zero s hd v = v
udivmod_loop-IsDivided n d (suc bit) s hd v =
    udivmod_loop-IsDivided n d bit (udivmod_round n d bit s) hd
      (udivmod_round-IsDivided n d bit s hd v)

quotient_of :
    (n d : ℕ) (s : QuotRem) → 0 < d → IsDivided n d 0 s → (s.quotient ≡ n / d) × (s.rem ≡ n % d)
quotient_of n d s pos v = (
  upper_is ∙ sym quotient,
  ground (arith, parts, v.rem_lt, mul-add-mod_self_right v.upper d s.rem, mod-eq_of_lt v.rem_lt),
)
  where
    upper_is : s.quotient ≡ v.upper
    upper_is = omega (arith, v.quotient_bits)

    parts : n ≡ v.upper * d + s.rem
    parts = omega (arith, v.divides)

    quotient : n / d ≡ v.upper
    quotient = div-eq_of_lt-le d (grind (arith, parts)) (grind (arith, parts, v.rem_lt))

-- For a 32-bit word `n` and a nonzero 32-bit word `d`, the loop of `udivmod` computes the
-- quotient and the remainder of `n` by `d`.
pub udivmod_lem :
    (n d : ℕ)
    → n < 2 ^ 32
    → d < 2 ^ 32
    → 0 < d
    → ((udivmod n d).quotient ≡ n / d) × ((udivmod n d).rem ≡ n % d)
unfolding udivmod
udivmod_lem n d hn hd pos = quotient_of n d _ pos (
    udivmod_loop-IsDivided n d 32 (record { quotient = 0; rem = 0 }) hd
      (record { upper = 0; quotient_bits = refl; divides = omega arith; rem_lt = pos }))
