-- ===== src/Emulator/Pmp.antt =====
-- Physical memory protection of tools/rv32emu_core.c: `pmp_allows`, and the writes of `csr_write`
-- to pmpcfg and pmpaddr.
mod Tests
pub mod Regions
pub mod Decision
pub mod Locks
use tiny_processors.Prelude.{
  ℕ, zero, suc, ◌+◌, ◌-◌, ◌*◌, ◌/◌, ◌%◌, ◌^◌, Bool, true, false, not, ◌&&◌, ◌||◌, List, ltb, leb,
  ◌==◌, ◌!=◌, if◌then◌else◌, bit_and, bit_xor, get_or, set,
}
use tiny_processors.Prelude.Bits.{flip, has}

abbrev pub pmp_entries : ℕ
pmp_entries = 8

abbrev pub pmp_r : ℕ
pmp_r = 1

abbrev pub pmp_w : ℕ
pmp_w = 2

abbrev pub pmp_x : ℕ
pmp_x = 4

-- The address mode of an entry: OFF is 0.
abbrev pub pmp_a : ℕ
pmp_a = 0x18

abbrev pub pmp_tor : ℕ
pmp_tor = 0x08

abbrev pub pmp_na4 : ℕ
pmp_na4 = 0x10

abbrev pub pmp_napot : ℕ
pmp_napot = 0x18

abbrev pub pmp_l : ℕ
pmp_l = 0x80

abbrev pub priv_u : ℕ
priv_u = 0

abbrev pub priv_s : ℕ
priv_s = 1

abbrev pub priv_m : ℕ
priv_m = 3

pub record Pmp : Type 0 where
  pub pmpcfg : List ℕ
  pub pmpaddr : List ℕ

-- `((word ^ at) & ~(at ^ (at + 1u))) == 0`
unfoldable pub napot_match : ℕ → ℕ → Bool
napot_match word at = bit_and (bit_xor word at) (flip 32 (bit_xor at ((at + 1) % 2 ^ 32))) == 0

-- The `switch` on the mode of entry `i`; OFF matches nothing.
unfoldable pub entry_match : Pmp → ℕ → ℕ → Bool
entry_match m word i =
    let mode = bit_and (get_or m.pmpcfg i 0) pmp_a in
    let at = get_or m.pmpaddr i 0 in
    if mode == pmp_tor
    then leb (if i != 0 then get_or m.pmpaddr (i - 1) 0 else 0) word && ltb word at
    else if mode == pmp_na4
    then word == at
    else if mode == pmp_napot
    then napot_match word at
    else false

-- What a matching entry allows.
unfoldable pub entry_allows : ℕ → ℕ → ℕ → Bool
entry_allows priv cfg need = priv == priv_m && not (has cfg pmp_l) || bit_and cfg need == need

-- The loop at entry `i`, with `left` entries to go.
unfoldable pub allows_loop : ℕ → Pmp → ℕ → ℕ → ℕ → ℕ → Bool
allows_loop priv m word need zero i = priv == priv_m
allows_loop priv m word need (suc left) i =
    let rest = allows_loop priv m word need left (i + 1) in
    if entry_match m word i then entry_allows priv (get_or m.pmpcfg i 0) need else rest

unfoldable pub pmp_allows : ℕ → Pmp → ℕ → ℕ → Bool
pmp_allows priv m addr need = allows_loop priv m (addr / 4) need pmp_entries 0

-- W without R is reserved: stored as neither.
pub legal_cfg : ℕ → ℕ
legal_cfg cfg = if has cfg pmp_w && not (has cfg pmp_r) then bit_and cfg (flip 32 pmp_w) else cfg

-- One round of the write of pmpcfg0 or pmpcfg1, which holds entries `first` to `first + 3`.
pub write_cfg : ℕ → ℕ → ℕ → Pmp → Pmp
write_cfg value first k m =
    let i = first + k in
    let cfg = bit_and (value / 2 ^ (8 * k)) 0x9f in
    if has (get_or m.pmpcfg i 0) pmp_l
    then m
    else record m { pmpcfg = set m.pmpcfg i (legal_cfg cfg) }

pub write_pmpcfg : ℕ → ℕ → Pmp → Pmp
write_pmpcfg first value m =
    write_cfg value first 3
      (write_cfg value first 2 (write_cfg value first 1 (write_cfg value first 0 m)))

-- Entry `i`, or a locked TOR entry above it that takes its address for a base.
pub addr_locked : Pmp → ℕ → Bool
addr_locked m i =
    has (get_or m.pmpcfg i 0) pmp_l
    || ltb (i + 1) pmp_entries
      && bit_and (get_or m.pmpcfg (i + 1) 0) (pmp_l + pmp_a) == pmp_l + pmp_tor

pub write_pmpaddr : ℕ → ℕ → Pmp → Pmp
write_pmpaddr i value m =
    if addr_locked m i then m else record m { pmpaddr = set m.pmpaddr i value }
