-- ===== src/Emulator/Sv32.antt =====
-- Sv32 address translation in tools/rv32emu_core.c: `translate`.
pub mod Walk
mod Tests
use tiny_processors.Prelude.{
  ℕ, ◌+◌, ◌*◌, ◌/◌, ◌%◌, ◌^◌, Bool, true, false, not, ◌&&◌, ◌||◌, ◌==◌, ◌!=◌, if◌then◌else◌,
  bit_and, bit_or,
}
use tiny_processors.Prelude.Bits.{has}
use tiny_processors.Emulator.Access.{Access, acc_ok, acc_fault, acc_page_fault}
use tiny_processors.Emulator.Pmp.{pmp_allows, pmp_r, priv_u, priv_s, priv_m}
use tiny_processors.Emulator.Memory.{in_ram, ram_read}
use tiny_processors.Emulator.Hart.{Hart, mstatus_sum, mstatus_mxr}
use tiny_processors.Emulator.Csr.{satp_mode, satp_ppn}

pub data WalkKind : Type 0 where
  walk_fetch walk_load walk_store : WalkKind

abbrev pub pte_v : ℕ
pte_v = 0x01

abbrev pub pte_r : ℕ
pte_r = 0x02

abbrev pub pte_w : ℕ
pte_w = 0x04

abbrev pub pte_x : ℕ
pte_x = 0x08

abbrev pub pte_u : ℕ
pte_u = 0x10

abbrev pub pte_a : ℕ
pte_a = 0x40

abbrev pub pte_d : ℕ
pte_d = 0x80

abbrev fetches : WalkKind → Bool
fetches walk_fetch = true
fetches walk_load = false
fetches walk_store = false

abbrev pub stores : WalkKind → Bool
stores walk_store = true
stores walk_fetch = false
stores walk_load = false

-- How a round of the walk ends: with the access, or with the table of the next level.
pub data Round : Type 0 where
  ends : Access ℕ → Round
  next_table : ℕ → Round

-- Whether a leaf's U bit refuses the access.
pub user_refused : ℕ → Hart → WalkKind → ℕ → Bool
user_refused pte m kind priv =
    let user = has pte pte_u in
    if priv == priv_u then not user else user && (fetches kind || not (has m.mstatus mstatus_sum))

pub leaf_allows : ℕ → Hart → WalkKind → Bool
leaf_allows pte m walk_fetch = has pte pte_x
leaf_allows pte m walk_store = has pte pte_w
leaf_allows pte m walk_load = has pte pte_r || has m.mstatus mstatus_mxr && has pte pte_x

pub leaf_address : ℕ → ℕ → ℕ → ℕ
leaf_address level va pte =
    let ppn = pte / 2 ^ 10 in
    if level != 0
    then bit_or (ppn / 2 ^ 10 * 2 ^ 22) (bit_and va 0x3f_ffff)
    else bit_or (ppn * 2 ^ 12) (bit_and va 0xfff)

-- What the round does with the entry it has read.
pub check_pte : Hart → ℕ → WalkKind → ℕ → ℕ → ℕ → Round
check_pte m va kind priv level pte =
    if not (has pte pte_v) || not (has pte pte_r) && has pte pte_w
    then ends acc_page_fault
    else if not (has pte (pte_r + pte_x))
    then if level == 0 || has pte (pte_d + pte_a + pte_u)
      then ends acc_page_fault
      else next_table (pte / 2 ^ 10 * 2 ^ 12)
    else if level == 1 && has (pte / 2 ^ 10) 0x3ff
    then ends acc_page_fault
    else if user_refused pte m kind priv
    then ends acc_page_fault
    else if not (leaf_allows pte m kind)
        || not (has pte pte_a)
        || stores kind && not (has pte pte_d)
    then ends acc_page_fault
    else if leaf_address level va pte / 2 ^ 32 != 0
    then ends acc_fault
    else ends (acc_ok (leaf_address level va pte))

pub pte_address : ℕ → ℕ → ℕ → ℕ
pte_address va level table = table + 4 * bit_and (va / 2 ^ (if level != 0 then 22 else 12)) 0x3ff

pub walk_round : (ℕ → ℕ) → Hart → ℕ → WalkKind → ℕ → ℕ → ℕ → Round
walk_round ram m va kind priv level table =
    let at = pte_address va level table in
    if at / 2 ^ 32 != 0 || not (in_ram at 4) || not (pmp_allows priv_s m.pmp at pmp_r)
    then ends acc_fault
    else check_pte m va kind priv level (ram_read ram at 4)

-- The loop's two rounds, at level 1 and at level 0.
pub walk_last : Round → Access ℕ
walk_last (ends r) = r
walk_last (next_table t) = acc_page_fault

pub walk_from : (ℕ → ℕ) → Hart → ℕ → WalkKind → ℕ → Round → Access ℕ
walk_from ram m va kind priv (ends r) = r
walk_from ram m va kind priv (next_table t) = walk_last (walk_round ram m va kind priv 0 t)

abbrev pub root_table : Hart → ℕ
root_table m = bit_and m.satp satp_ppn * 2 ^ 12

pub translate : (ℕ → ℕ) → Hart → ℕ → WalkKind → ℕ → Access ℕ
translate ram m va kind priv =
    if not (has m.satp satp_mode) || priv == priv_m
    then acc_ok va
    else walk_from ram m va kind priv (walk_round ram m va kind priv 1 (root_table m))
