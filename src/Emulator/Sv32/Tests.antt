-- ===== src/Emulator/Sv32/Tests.antt =====
-- A translation through one megapage.
use tiny_processors.Prelude.{ℕ, ◌≡◌, arith, refl, replicate, ◌==◌, if◌then◌else◌, ◌∷◌}
use tiny_processors.Emulator.Access.{acc_ok}
use tiny_processors.Emulator.Pmp.{
  priv_u, pmp_allows, allows_loop, entry_match, entry_allows, napot_match,
}
use tiny_processors.Emulator.Memory.{in_ram, ram_read, bytes_read, read_loop}
use tiny_processors.Emulator.Hart.{Hart}
use tiny_processors.Emulator.Hart.Samples.{user}
use tiny_processors.Emulator.Sv32.{
  walk_load, translate, walk_from, walk_round, check_pte, pte_address, user_refused, leaf_allows,
  leaf_address,
}
use tiny_processors.Emulator.Sv32.Walk.{IsMapped, translate-IsMapped}

-- The root table at 0x8000_0000 maps 0x0040_0000 to 0x8040_0000, and PMP entry 0 opens all of memory.
abbrev tables : ℕ → ℕ
tables a = if a == 4 then 0xdf else if a == 6 then 0x10 else if a == 7 then 0x20 else 0

abbrev paged : Hart
paged = record user {
  satp = 0x8008_0000;
  pmp = record { pmpcfg = 0x1f ∷ replicate 7 0; pmpaddr = 0xffff_ffff ∷ replicate 7 0 };
}

translates : translate tables paged 0x40_0123 walk_load priv_u ≡ acc_ok 0x8040_0123
unfolding translate walk_from walk_round check_pte pte_address user_refused leaf_allows leaf_address
    in_ram ram_read bytes_read read_loop pmp_allows allows_loop entry_match entry_allows napot_match
translates = refl

translate-IsMapped_example : IsMapped tables paged 0x40_0123 walk_load priv_u 0x8040_0123
translate-IsMapped_example =
    translate-IsMapped tables paged 0x40_0123 walk_load priv_u 0x8040_0123 refl (omega arith)
      translates
