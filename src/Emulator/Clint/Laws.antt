-- ===== src/Emulator/Clint/Laws.antt =====
-- Reading back what was written to the timer.
use tiny_processors.Prelude.{
  ℕ, ◌+◌, ◌-◌, ◌*◌, ◌/◌, ◌%◌, ◌^◌, ◌<◌, ◌≡◌, ◌≢◌, ◌⊎◌, inl, inr, refl, arith,
}
use tiny_processors.Prelude.Bits.{bit_and-mask, bit_or-add, bit_or_comm, bit_and-high_mask}
use tiny_processors.Emulator.Access.{acc_ok}
use tiny_processors.Emulator.Clint.{
  Clint, mtime_now, with_low, with_high, clint_load, clint_store, clint_mtime, clint_mtimecmp,
}

with_low_lem :
    (x value : ℕ) → x < 2 ^ 64 → value < 2 ^ 32 → with_low x value ≡ x / 2 ^ 32 * 2 ^ 32 + value
unfolding with_low
with_low_lem x value hx hv = rw (bit_and-high_mask 32 32 x hx) (bit_or-add 32 (x / 2 ^ 32) value hv)

with_high_lem : (x value : ℕ) → value < 2 ^ 32 → with_high x value ≡ value * 2 ^ 32 + x % 2 ^ 32
unfolding with_high
with_high_lem x value hv =
    rw (bit_and-mask 32 x, bit_or_comm (x % 2 ^ 32) (value * 2 ^ 32))
      (bit_or-add 32 value (x % 2 ^ 32) (omega arith))

-- A word stored at `offset` reads back at the same step, and every other register reads as before.
pub record Stores (steps offset value : ℕ) (before : Clint) : Type 0 where
  pub after : Clint
  pub succeeds : clint_store steps offset 4 value before ≡ acc_ok after
  pub reads_back : clint_load steps offset 4 after ≡ acc_ok value
  pub keeps :
      (other : ℕ)
      → other ≢ offset
      → clint_load steps other 4 after ≡ clint_load steps other 4 before

-- The words of the two 64-bit registers.
abbrev pub IsTimerWord : ℕ → Type 0
IsTimerWord offset =
    (offset ≡ clint_mtimecmp)
    ⊎ (offset ≡ clint_mtimecmp + 4)
    ⊎ (offset ≡ clint_mtime)
    ⊎ (offset ≡ clint_mtime + 4)

module _ (steps value : ℕ) (c : Clint) (hs : steps < 2 ^ 64) (hv : value < 2 ^ 32)
    (hc : c.mtimecmp < 2 ^ 64) where
  now-lt : mtime_now steps c < 2 ^ 64
  unfolding mtime_now
  now-lt = omega arith

  store-mtimecmp_low : Stores steps clint_mtimecmp value c
  unfolding clint_store clint_load mtime_now
  store-mtimecmp_low =
      let w = with_low_lem c.mtimecmp value hc hv in
      record {
        after = record c { mtimecmp = with_low c.mtimecmp value };
        succeeds = refl;
        reads_back = ground (arith, w);
        keeps = λ o ne. ground (arith, w);
      }

  store-mtimecmp_high : Stores steps (clint_mtimecmp + 4) value c
  unfolding clint_store clint_load mtime_now
  store-mtimecmp_high =
      let w = with_high_lem c.mtimecmp value hv in
      record {
        after = record c { mtimecmp = with_high c.mtimecmp value };
        succeeds = refl;
        reads_back = ground (arith, w);
        keeps = λ o ne. ground (arith, w);
      }

  store-mtime_low : Stores steps clint_mtime value c
  unfolding clint_store clint_load mtime_now
  store-mtime_low =
      let w = with_low_lem (mtime_now steps c) value now-lt hv in
      record {
        after = record c {
          mtime_offset = (with_low (mtime_now steps c) value + 2 ^ 64 - steps) % 2 ^ 64;
        };
        succeeds = refl;
        reads_back = ground (arith, w);
        keeps = λ o ne. ground (arith, w);
      }

  store-mtime_high : Stores steps (clint_mtime + 4) value c
  unfolding clint_store clint_load mtime_now
  store-mtime_high =
      let w = with_high_lem (mtime_now steps c) value hv in
      record {
        after = record c {
          mtime_offset = (with_high (mtime_now steps c) value + 2 ^ 64 - steps) % 2 ^ 64;
        };
        succeeds = refl;
        reads_back = ground (arith, w);
        keeps = λ o ne. ground (arith, w);
      }

  -- With steps and MTIMECMP below 2 ^ 64, a 32-bit word stored to either half of MTIME or
  -- MTIMECMP succeeds, reads back at the same step, and leaves what a load at every other offset
  -- returns.
  pub clint_store-load : (offset : ℕ) → IsTimerWord offset → Stores steps offset value c
  clint_store-load offset (inl e) = rw e store-mtimecmp_low
  clint_store-load offset (inr (inl e)) = rw e store-mtimecmp_high
  clint_store-load offset (inr (inr (inl e))) = rw e store-mtime_low
  clint_store-load offset (inr (inr (inr e))) = rw e store-mtime_high
