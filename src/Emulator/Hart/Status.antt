-- ===== src/Emulator/Hart/Status.antt =====
-- The bits of mstatus on trap entry and return.
use tiny_processors.Prelude.{
  ℕ, ◌^◌, ◌<◌, ◌≡◌, arith, Bool, true, false, ◌&&◌, ◌||◌, ◌==◌, ◌!=◌, if◌then◌else◌, bit_and,
  bit_or,
}
use tiny_processors.Prelude.Bits.{
  test, test-or, test-and_not, test-two_pow, test-zero, has_bit, flip, has,
}
use tiny_processors.Emulator.Pmp.{priv_s}
use tiny_processors.Emulator.Hart.{
  status_to_s, status_to_m, status_after_mret, status_after_sret, mstatus_mie, mstatus_mpie,
  mstatus_sie, mstatus_spie,
}

test-mask2 : (i j k : ℕ) → test (bit_or (2 ^ i) (2 ^ j)) k ≡ (k == i || k == j)
test-mask2 i j k = ground (arith, test-or (2 ^ i) (2 ^ j) k, test-two_pow i k, test-two_pow j k)

test-mask3 :
    (i j l k : ℕ)
    → test (bit_or (bit_or (2 ^ i) (2 ^ j)) (2 ^ l)) k ≡ (k == i || (k == j || k == l))
test-mask3 i j l k =
    ground (arith, test-or (bit_or (2 ^ i) (2 ^ j)) (2 ^ l) k, test-mask2 i j k, test-two_pow l k)

test-or_if :
    (a i k : ℕ) (c : Bool)
    → test (bit_or a (if c then 2 ^ i else 0)) k ≡ (test a k || (k == i && c))
test-or_if a i k true = ground (arith, test-or a (2 ^ i) k, test-two_pow i k)
test-or_if a i k false = ground (arith, test-or a 0 k, test-zero k)

-- Entry to machine mode moves MIE (bit 3) to MPIE (bit 7) and clears MIE.
pub test-status_to_m :
    (mstatus k : ℕ)
    → mstatus < 2 ^ 32
    → test (status_to_m mstatus) k ≡ (if k == 7 then test mstatus 3 else (test mstatus k && k != 3))
unfolding status_to_m
test-status_to_m mstatus k h = ground (
  arith,
  test-or_if (bit_and mstatus (flip 32 0x88)) 7 k (has mstatus mstatus_mie),
  test-and_not 32 mstatus 0x88 k h (omega arith),
  test-mask2 3 7 k,
  has_bit 3 mstatus,
)

-- Entry to supervisor mode moves SIE (bit 1) to SPIE (bit 5) and keeps the privilege in SPP (bit 8).
pub test-status_to_s :
    (priv mstatus k : ℕ)
    → mstatus < 2 ^ 32
    → test (status_to_s priv mstatus) k ≡ (
        if k == 5
        then test mstatus 1
        else if k == 8
        then priv == priv_s
        else (test mstatus k && k != 1))
unfolding status_to_s
test-status_to_s priv mstatus k h = ground (
  arith,
  test-or_if
      (bit_or (bit_and mstatus (flip 32 0x122))
        (if has mstatus mstatus_sie then mstatus_spie else 0))
      8 k (priv == priv_s),
  test-or_if (bit_and mstatus (flip 32 0x122)) 5 k (has mstatus mstatus_sie),
  test-and_not 32 mstatus 0x122 k h (omega arith),
  test-mask3 1 5 8 k,
  has_bit 1 mstatus,
)

pub test-status_after_mret :
    (mstatus k : ℕ)
    → mstatus < 2 ^ 32
    → test (status_after_mret mstatus) k
      ≡ (if k == 3 then test mstatus 7 else (test mstatus k || k == 7))
unfolding status_after_mret
test-status_after_mret mstatus k h = ground (
  arith,
  test-or_if (bit_or (bit_and mstatus (flip 32 mstatus_mie)) mstatus_mpie) 3 k
      (has mstatus mstatus_mpie),
  test-or (bit_and mstatus (flip 32 mstatus_mie)) (2 ^ 7) k,
  test-and_not 32 mstatus mstatus_mie k h (omega arith),
  test-two_pow 3 k,
  test-two_pow 7 k,
  has_bit 7 mstatus,
)

pub test-status_after_sret :
    (mstatus k : ℕ)
    → mstatus < 2 ^ 32
    → test (status_after_sret mstatus) k
      ≡ (if k == 1 then test mstatus 5 else (test mstatus k || k == 5) && (k != 8 && k != 17))
unfolding status_after_sret
test-status_after_sret mstatus k h = ground (
  arith,
  test-or_if (bit_or (bit_and mstatus (flip 32 0x2_0102)) mstatus_spie) 1 k
      (has mstatus mstatus_spie),
  test-or (bit_and mstatus (flip 32 0x2_0102)) (2 ^ 5) k,
  test-and_not 32 mstatus 0x2_0102 k h (omega arith),
  test-mask3 1 8 17 k,
  test-two_pow 5 k,
  has_bit 5 mstatus,
)
