-- ===== src/Emulator/Pmp/Tests.antt =====
-- Physical memory protection on concrete entries.
use tiny_processors.Prelude.{◌/◌, ◌^◌, ◌≡◌, refl, arith, true, ◌==◌, [], ◌∷◌, get_or, replicate}
use tiny_processors.Emulator.Pmp.{
  Pmp, priv_m, pmp_w, pmp_allows, entry_match, entry_allows, write_pmpcfg, write_pmpaddr,
  napot_match,
}
use tiny_processors.Emulator.Pmp.Regions.{napot_match_lem}
use tiny_processors.Emulator.Pmp.Decision.{Allowed, pmp_allows-Allowed}
use tiny_processors.Emulator.Pmp.Locks.{IsLocked, unwritten, cfg_write, addr_write, Written-entry}

-- Entry 1 is a locked, read-only TOR region from 0x8000_0000 to 0x8000_1000.
abbrev guarded : Pmp
guarded = record {
  pmpcfg = 0 ∷ 0x89 ∷ 0 ∷ 0 ∷ 0 ∷ 0 ∷ 0 ∷ 0 ∷ [];
  pmpaddr = 0x2000_0000 ∷ 0x2000_0400 ∷ 0 ∷ 0 ∷ 0 ∷ 0 ∷ 0 ∷ 0 ∷ [];
}

-- No entry is set.
abbrev open_machine : Pmp
open_machine = record { pmpcfg = replicate 8 0; pmpaddr = replicate 8 0 }

abbrev after_writes : Pmp
after_writes = write_pmpaddr 0 7 (write_pmpcfg 0 0 guarded)

guarded-IsLocked : IsLocked guarded 1
guarded-IsLocked = refl

Written-entry_example :
    (entry_match after_writes 0x2000_0000 1 ≡ entry_match guarded 0x2000_0000 1)
    × (entry_allows priv_m (get_or after_writes.pmpcfg 1 0) pmp_w
        ≡ entry_allows priv_m (get_or guarded.pmpcfg 1 0) pmp_w)
Written-entry_example =
    Written-entry 1 priv_m 0x2000_0000 pmp_w (omega arith) guarded-IsLocked
      (addr_write 0 7 (cfg_write 0 0 unwritten))

-- 0x2000_01ff ends in nine ones: a region of 1024 words.
napot_match_lem_example :
    napot_match 0x2000_0123 0x2000_01ff ≡ (0x2000_0123 / 2 ^ 10 == 0x2000_01ff / 2 ^ 10)
napot_match_lem_example =
    napot_match_lem 9 22 0x2000_0123 0x2000_01ff refl (omega arith) (omega arith) refl

-- Machine mode writes to the locked region.
pmp_allows-Allowed_example :
    (pmp_allows priv_m guarded 0x8000_0000 pmp_w ≡ true
      → Allowed priv_m guarded (0x8000_0000 / 4) pmp_w)
    × (Allowed priv_m guarded (0x8000_0000 / 4) pmp_w
        → pmp_allows priv_m guarded 0x8000_0000 pmp_w ≡ true)
pmp_allows-Allowed_example = pmp_allows-Allowed priv_m guarded 0x8000_0000 pmp_w (omega arith)
