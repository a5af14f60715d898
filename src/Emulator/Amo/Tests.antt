-- ===== src/Emulator/Amo/Tests.antt =====
-- An atomic minimum of a negative and a positive word.
use tiny_processors.Prelude.{◌≡◌, arith, refl, true}
use tiny_processors.Emulator.Amo.{amo_valid, amo_min}
use tiny_processors.Emulator.Amo.Words.{Writes, amo_value-Writes}

min_is_valid : amo_valid amo_min 0 ≡ true
unfolding amo_valid
min_is_valid = refl

amo_value-Writes_example : Writes amo_min 0xffff_ffff 5
amo_value-Writes_example =
    amo_value-Writes amo_min 0 0xffff_ffff 5 min_is_valid (omega arith) (omega arith) (omega arith)
      (omega arith)
