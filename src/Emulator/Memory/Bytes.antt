-- ===== src/Emulator/Memory/Bytes.antt =====
-- Bytes written read back as the word.
use tiny_processors.Prelude.{
  ℕ, zero, suc, ◌+◌, ◌*◌, ◌/◌, ◌%◌, ◌^◌, ◌<◌, ◌≡◌, inl, inr, refl, arith, ◌&&◌, leb, ltb, ◌==◌,
  if◌then◌else◌, bit_or, ◌∙◌, sym, Bool-cases,
}
use tiny_processors.Prelude.Bits.{bit_or-add, two_pow-add}
use native.Mathlib.Nat.{div-div-eq-div-mul, div-le_self, div-eq_of_lt}
use tiny_processors.Emulator.Memory.{read_loop, bytes_read, put, write_loop, bytes_write}

-- What the loop leaves in each byte.
write_loop-byte :
    (left : ℕ) (ram : ℕ → ℕ) (at value i k : ℕ)
    → write_loop left ram at value i (at + k)
      ≡ (if leb i k && ltb k (i + left) then value / 2 ^ (8 * k) % 2 ^ 8 else ram (at + k))
unfolding write_loop put
write_loop-byte zero ram at value i k = ground arith
write_loop-byte (suc left) ram at value i k =
    write_loop-byte left (put ram (at + i) (value / 2 ^ (8 * i) % 2 ^ 8)) at value (i + 1) k
    ∙ here_or_later
  where
    here_or_later :
        (if leb (i + 1) k && ltb k (i + 1 + left)
          then value / 2 ^ (8 * k) % 2 ^ 8
          else put ram (at + i) (value / 2 ^ (8 * i) % 2 ^ 8) (at + k))
        ≡ (if leb i k && ltb k (i + suc left) then value / 2 ^ (8 * k) % 2 ^ 8 else ram (at + k))
    here_or_later = elim (Bool-cases (k == i)) [
      | inl same ↦ let e : k ≡ i = ground arith in rw e (ground arith)
      | inr other ↦ ground arith
    ]

-- The bytes written, and no others.
pub bytes_write-byte :
    (width : ℕ) (ram : ℕ → ℕ) (at value k : ℕ)
    → bytes_write ram at width value (at + k)
      ≡ (if ltb k width then value / 2 ^ (8 * k) % 2 ^ 8 else ram (at + k))
unfolding bytes_write
bytes_write-byte width ram at value k = write_loop-byte width ram at value 0 k ∙ ground arith

-- With the upper bytes of `value` read, the loop reads the rest.
read_loop-bytes :
    (i : ℕ) (ram : ℕ → ℕ) (at value : ℕ)
    → value < 2 ^ 32
    → ((k : ℕ) → k < i → ram (at + k) ≡ value / 2 ^ (8 * k) % 2 ^ 8)
    → read_loop ram at i (value / 2 ^ (8 * i)) ≡ value
unfolding read_loop
read_loop-bytes zero ram at value h same = omega arith
read_loop-bytes (suc i) ram at value h same =
    rw (same i (omega arith), next_byte)
      (read_loop-bytes i ram at value h (λ k l. same k (omega arith)))
  where
    upper : value / 2 ^ (8 * suc i) ≡ value / 2 ^ (8 * i) / 2 ^ 8
    upper = rw (two_pow_next, div-div-eq-div-mul value (2 ^ (8 * i)) (2 ^ 8)) refl
      where
        two_pow_next : 2 ^ (8 * suc i) ≡ 2 ^ (8 * i) * 2 ^ 8
        two_pow_next = let e : 8 * suc i ≡ 8 * i + 8 = omega arith in rw e (two_pow-add (8 * i) 8)

    next_byte :
        bit_or (value / 2 ^ (8 * suc i) * 2 ^ 8 % 2 ^ 32) (value / 2 ^ (8 * i) % 2 ^ 8)
        ≡ value / 2 ^ (8 * i)
    next_byte =
        let low : value / 2 ^ (8 * i) < 2 ^ 32 = omega (arith, div-le_self value (2 ^ (8 * i))) in
        ground (
          arith,
          upper,
          bit_or-add 8 (value / 2 ^ (8 * i) / 2 ^ 8) (value / 2 ^ (8 * i) % 2 ^ 8) (omega arith),
        )

-- A 32-bit word that fits `width` bytes, written to RAM by `bytes_write`, is read back by
-- `bytes_read` at the same place and width.
pub bytes_read-write :
    (width : ℕ) (ram : ℕ → ℕ) (at value : ℕ)
    → value < 2 ^ 32
    → value < 2 ^ (8 * width)
    → bytes_read (bytes_write ram at width value) at width ≡ value
unfolding bytes_read
bytes_read-write width ram at value hw hv =
    let none_left : 0 ≡ value / 2 ^ (8 * width) = sym (div-eq_of_lt hv) in
    rw none_left (
      read_loop-bytes width (bytes_write ram at width value) at value hw
        λ k l. ground (arith, bytes_write-byte width ram at value k))
