-- ===== src/Emulator/Plic.antt =====
-- The interrupt controller of tools/rv32emu_core.c: `plic_lines`, `plic_sample`, `plic_best`,
-- `plic_load` and `plic_store`. The pending, enable and claimed words hold a bit for each source.
mod Tests
pub mod Choice
pub mod Gateway
pub mod Runs
use tiny_processors.Prelude.{
  ℕ, zero, suc, ◌+◌, ◌*◌, ◌/◌, ◌%◌, ◌^◌, Bool, ◌&&◌, List, ltb, ◌==◌, ◌!=◌, if◌then◌else◌, bit_and,
  bit_or, get_or, set, replicate,
}
use tiny_processors.Prelude.Bits.{flip, has}
use tiny_processors.Emulator.Access.{Access, acc_ok, acc_fault}

abbrev pub plic_sources : ℕ
plic_sources = 32

abbrev pub plic_source_input : ℕ
plic_source_input = 12

abbrev pub plic_source_virtio : ℕ
plic_source_virtio = 1

-- 1u << PLIC_SOURCE_INPUT | 1u << PLIC_SOURCE_VIRTIO
abbrev pub plic_wired : ℕ
plic_wired = 0x1002

abbrev pub plic_pending_at : ℕ
plic_pending_at = 0x1000

abbrev pub plic_enable_at : ℕ
plic_enable_at = 0x2000

abbrev pub plic_threshold_at : ℕ
plic_threshold_at = 0x20_0000

abbrev pub plic_claim_at : ℕ
plic_claim_at = 0x20_0004

pub record Plic : Type 0 where
  pub priority : List ℕ
  pub enable : ℕ
  pub claimed : ℕ
  pub pending : ℕ
  pub threshold : ℕ

pub plic_reset : Plic
plic_reset = record {
  priority = replicate plic_sources 0;
  enable = 0;
  claimed = 0;
  pending = 0;
  threshold = 0;
}

-- The lines of the wired devices: events in the input queue, virtio's interrupt.
pub plic_lines : ℕ → Bool → ℕ
plic_lines count interrupt =
    bit_or (if count != 0 then 2 ^ plic_source_input else 0)
      (if interrupt then 2 ^ plic_source_virtio else 0)

pub plic_sample : ℕ → Plic → Plic
plic_sample lines p = record p {
  pending = bit_or p.pending (bit_and (bit_and lines plic_wired) (flip 32 p.claimed));
}

-- The loop of `plic_best` at source `id`, with `left` sources to go.
pub record Best : Type 0 where
  pub best : ℕ
  pub best_priority : ℕ

pub best_round : ℕ → List ℕ → ℕ → Best → Best
best_round candidates priority id s =
    if has (candidates / 2 ^ id) 1 && ltb s.best_priority (get_or priority id 0)
    then record { best = id; best_priority = get_or priority id 0 }
    else s

pub best_loop : ℕ → List ℕ → ℕ → ℕ → Best → Best
best_loop candidates priority zero id s = s
best_loop candidates priority (suc left) id s =
    best_loop candidates priority left (id + 1) (best_round candidates priority id s)

-- `m->plic_enable ? plic_pending(m) & m->plic_enable : 0u`
abbrev pub candidates : Plic → ℕ
candidates p = if p.enable != 0 then bit_and p.pending p.enable else 0

pub plic_best : Plic → ℕ
plic_best p =
    (best_loop (candidates p) p.priority 31 1
      (record { best = 0; best_priority = p.threshold })).best

-- The claim's writes, for the source that it returns.
pub plic_claim : ℕ → Plic → Plic
plic_claim id p = record p {
  claimed = bit_or p.claimed (bit_and (2 ^ id) (flip 32 1));
  pending = bit_and p.pending (flip 32 (2 ^ id));
}

pub plic_load : ℕ → ℕ → Plic → Access (ℕ × Plic)
plic_load offset width p =
    if width != 4
    then acc_fault
    else if ltb offset (4 * plic_sources)
    then acc_ok (get_or p.priority (offset / 4) 0, p)
    else if offset == plic_pending_at
    then acc_ok (p.pending, p)
    else if offset == plic_enable_at
    then acc_ok (p.enable, p)
    else if offset == plic_threshold_at
    then acc_ok (p.threshold, p)
    else if offset == plic_claim_at
    then acc_ok (plic_best p, plic_claim (plic_best p) p)
    else acc_fault

-- A completion ends the claim of an enabled source, and is ignored for others.
pub plic_complete : ℕ → Plic → Plic
plic_complete value p =
    if ltb value plic_sources && has (p.enable / 2 ^ value) 1
    then record p { claimed = bit_and p.claimed (flip 32 (2 ^ value)) }
    else p

pub plic_store : ℕ → ℕ → ℕ → Plic → Access Plic
plic_store offset width value p =
    if width != 4
    then acc_fault
    else if ltb offset (4 * plic_sources)
    then acc_ok (
        if has (plic_wired / 2 ^ (offset / 4)) 1
        then record p { priority = set p.priority (offset / 4) (bit_and value 7) }
        else p)
    else if offset == plic_enable_at
    then acc_ok (record p { enable = bit_and value plic_wired })
    else if offset == plic_threshold_at
    then acc_ok (record p { threshold = bit_and value 7 })
    else if offset == plic_claim_at
    then acc_ok (plic_complete value p)
    else acc_fault
