-- ===== src/Emulator/Sv32/Walk.antt =====
-- What a translation that succeeds has found.
use tiny_processors.Prelude.{
  ℕ, ◌/◌, ◌%◌, ◌^◌, ◌<◌, ◌≡◌, ◌≢◌, ◌∙◌, ap, refl, arith, true, false, ◌⊎◌, ◌+◌, ◌*◌,
}
use tiny_processors.Prelude.Bits.{has, bit_and-mask, bit_or-add, bit_and-or, bit_and-two_pow}
use tiny_processors.Emulator.Access.{acc_ok}
use tiny_processors.Emulator.Pmp.{pmp_allows, pmp_r, priv_s, priv_m}
use tiny_processors.Emulator.Memory.{in_ram, ram_read}
use tiny_processors.Emulator.Hart.{Hart}
use tiny_processors.Emulator.Csr.{satp_mode}
use tiny_processors.Emulator.Sv32.{
  WalkKind, walk_fetch, walk_load, walk_store, Round, ends, next_table, user_refused, leaf_allows,
  leaf_address, check_pte, pte_address, walk_round, walk_last, walk_from, translate, root_table,
}

-- A leaf entry of the level that grants the access, by its bits, and holds the page of `pa`.
pub record Grants (m : Hart) (va : ℕ) (kind : WalkKind) (priv level pte pa : ℕ) : Type 0 where
  pub is_valid : has pte 0x01 ≡ true
  pub is_accessed : has pte 0x40 ≡ true
  pub not_reserved : has pte 0x04 ≡ true → has pte 0x02 ≡ true
  pub fetches : kind ≡ walk_fetch → has pte 0x08 ≡ true
  pub loads :
      kind ≡ walk_load
      → (has pte 0x02 ≡ true) ⊎ ((has m.mstatus 0x8_0000 ≡ true) × (has pte 0x08 ≡ true))
  pub stores : kind ≡ walk_store → (has pte 0x04 ≡ true) × (has pte 0x80 ≡ true)
  pub user : priv ≡ 0 → has pte 0x10 ≡ true
  pub supervisor :
      priv ≢ 0 → has pte 0x10 ≡ true → (kind ≢ walk_fetch) × (has m.mstatus 0x4_0000 ≡ true)
  pub megapage :
      level ≡ 1 → (pte / 2 ^ 10 % 2 ^ 10 ≡ 0) × (pa ≡ pte / 2 ^ 20 * 2 ^ 22 + va % 2 ^ 22)
  pub page : level ≡ 0 → pa ≡ pte / 2 ^ 10 * 2 ^ 12 + va % 2 ^ 12
  pub fits : pa < 2 ^ 32

pub check_pte-Grants :
    (m : Hart) (va : ℕ) (kind : WalkKind) (priv level pte pa : ℕ)
    → check_pte m va kind priv level pte ≡ ends (acc_ok pa)
    → Grants m va kind priv level pte pa
unfolding check_pte user_refused leaf_allows leaf_address
check_pte-Grants m va walk_fetch priv level pte pa h = record {
  is_valid = ground arith;
  is_accessed = ground arith;
  not_reserved = λ w. ground arith;
  fetches = λ k. ground arith;
  loads = λ k. cc;
  stores = λ k. cc;
  user = λ k. ground arith;
  supervisor = λ k u. absurd (ground arith);
  megapage = λ k. (
    ground (arith, bit_and-mask 10 (pte / 2 ^ 10)),
    ground (arith, bit_and-mask 22 va, bit_or-add 22 (pte / 2 ^ 10 / 2 ^ 10) (va % 2 ^ 22)),
  );
  page = λ k. ground (arith, bit_and-mask 12 va, bit_or-add 12 (pte / 2 ^ 10) (va % 2 ^ 12));
  fits = ground arith;
}
check_pte-Grants m va walk_load priv level pte pa h = record {
  is_valid = ground arith;
  is_accessed = ground arith;
  not_reserved = λ w. ground arith;
  fetches = λ k. cc;
  loads = λ k. ground arith;
  stores = λ k. cc;
  user = λ k. ground arith;
  supervisor = λ k u. (λ e. cc, ground arith);
  megapage = λ k. (
    ground (arith, bit_and-mask 10 (pte / 2 ^ 10)),
    ground (arith, bit_and-mask 22 va, bit_or-add 22 (pte / 2 ^ 10 / 2 ^ 10) (va % 2 ^ 22)),
  );
  page = λ k. ground (arith, bit_and-mask 12 va, bit_or-add 12 (pte / 2 ^ 10) (va % 2 ^ 12));
  fits = ground arith;
}
check_pte-Grants m va walk_store priv level pte pa h = record {
  is_valid = ground arith;
  is_accessed = ground arith;
  not_reserved = λ w. ground arith;
  fetches = λ k. cc;
  loads = λ k. cc;
  stores = λ k. (ground arith, ground arith);
  user = λ k. ground arith;
  supervisor = λ k u. (λ e. cc, ground arith);
  megapage = λ k. (
    ground (arith, bit_and-mask 10 (pte / 2 ^ 10)),
    ground (arith, bit_and-mask 22 va, bit_or-add 22 (pte / 2 ^ 10 / 2 ^ 10) (va % 2 ^ 22)),
  );
  page = λ k. ground (arith, bit_and-mask 12 va, bit_or-add 12 (pte / 2 ^ 10) (va % 2 ^ 12));
  fits = ground arith;
}

-- Where the walk reads the root table.
abbrev pub root_entry : Hart → ℕ → ℕ
root_entry m va = m.satp % 2 ^ 22 * 2 ^ 12 + 4 * (va / 2 ^ 22 % 2 ^ 10)

-- An entry of the page table that the walk reads: of the root table, or of one that an entry of the root points to.
pub data IsEntry (ram : ℕ → ℕ) (m : Hart) (va : ℕ) : ℕ → ℕ → Type 0 where
  of_root : (at : ℕ) → at ≡ root_entry m va → IsEntry ram m va 1 at
  of_table :
      (pte at : ℕ)
      → pte ≡ ram_read ram (root_entry m va) 4
      → in_ram (root_entry m va) 4 ≡ true
      → pmp_allows 1 m.pmp (root_entry m va) 1 ≡ true
      → has pte 0x01 ≡ true
      → has pte 0x02 ≡ false
      → has pte 0x04 ≡ false
      → has pte 0x08 ≡ false
      → at ≡ pte / 2 ^ 10 * 2 ^ 12 + 4 * (va / 2 ^ 12 % 2 ^ 10)
      → IsEntry ram m va 0 at

-- An entry in RAM, which PMP lets the supervisor read, that grants the access.
pub record IsMapped (ram : ℕ → ℕ) (m : Hart) (va : ℕ) (kind : WalkKind) (priv pa : ℕ) : Type 0 where
  pub level : ℕ
  pub at : ℕ
  pub placed : IsEntry ram m va level at
  pub in_memory : in_ram at 4 ≡ true
  pub permitted : pmp_allows 1 m.pmp at 1 ≡ true
  pub grants : Grants m va kind priv level (ram_read ram at 4) pa
  pub same_offset : pa % 2 ^ 12 ≡ va % 2 ^ 12

pte_address-entry :
    (va level table : ℕ)
    → (level ≡ 1 → pte_address va level table ≡ table + 4 * (va / 2 ^ 22 % 2 ^ 10))
      × (level ≡ 0 → pte_address va level table ≡ table + 4 * (va / 2 ^ 12 % 2 ^ 10))
unfolding pte_address
pte_address-entry va level table = (
  λ e. rw (e, bit_and-mask 10 (va / 2 ^ 22)) refl,
  λ e. rw (e, bit_and-mask 10 (va / 2 ^ 12)) refl,
)

root_lem : (m : Hart) (va : ℕ) → pte_address va 1 (root_table m) ≡ root_entry m va
root_lem m va = (pte_address-entry va 1 (root_table m)).0 refl ∙ rw (bit_and-mask 22 m.satp) refl

check_pte-address :
    (m : Hart) (va : ℕ) (kind : WalkKind) (priv level pte pa : ℕ)
    → check_pte m va kind priv level pte ≡ ends (acc_ok pa)
    → pa ≡ leaf_address level va pte
unfolding check_pte
check_pte-address m va kind priv level pte pa h = ground arith

-- What an entry that points to a table is.
check_pte-table :
    (m : Hart) (va : ℕ) (kind : WalkKind) (priv level pte table : ℕ)
    → check_pte m va kind priv level pte ≡ next_table table
    → (has pte 0x01 ≡ true)
      × (has pte 0x02 ≡ false)
      × (has pte 0x04 ≡ false)
      × (has pte 0x08 ≡ false)
      × (table ≡ pte / 2 ^ 10 * 2 ^ 12)
unfolding check_pte
check_pte-table m va kind priv level pte table h =
    let parts = bit_and-or 32 pte 0x02 0x08 (omega arith) (omega arith) in
    let two = bit_and-two_pow 1 pte in
    let eight = bit_and-two_pow 3 pte in
    (
      ground arith,
      ground (arith, parts, two, eight),
      ground (arith, parts, two, eight),
      ground (arith, parts, two, eight),
      ground arith,
    )

walk_round-table :
    (ram : ℕ → ℕ) (m : Hart) (va : ℕ) (kind : WalkKind) (priv table : ℕ)
    → walk_round ram m va kind priv 1 (root_table m) ≡ next_table table
    → IsEntry ram m va 0 (pte_address va 0 table)
unfolding walk_round
walk_round-table ram m va kind priv table h =
    let start = root_lem m va in
    let at : ℕ = pte_address va 1 (root_table m) in
    let inside : in_ram at 4 ≡ true = ground arith in
    let permitted : pmp_allows priv_s m.pmp at pmp_r ≡ true = ground arith in
    let read : check_pte m va kind priv 1 (ram_read ram at 4) ≡ next_table table = ground arith in
    let (valid, no_read, no_write, no_execute, pointed) =
      check_pte-table m va kind priv 1 (ram_read ram (root_entry m va) 4) table
        (rw start at read) in
    IsEntry.of_table (ram_read ram (root_entry m va) 4) (pte_address va 0 table) refl
      (rw start at inside) (rw start at permitted) valid no_read no_write no_execute
      ((pte_address-entry va 0 table).1 refl ∙ rw pointed refl)

leaf_address-offset : (level va pte : ℕ) → leaf_address level va pte % 2 ^ 12 ≡ va % 2 ^ 12
unfolding leaf_address
leaf_address-offset level va pte = ground (
  arith,
  bit_and-mask 22 va,
  bit_and-mask 12 va,
  bit_or-add 22 (pte / 2 ^ 10 / 2 ^ 10) (va % 2 ^ 22),
  bit_or-add 12 (pte / 2 ^ 10) (va % 2 ^ 12),
)

walk_round-ends :
    (ram : ℕ → ℕ) (m : Hart) (va : ℕ) (kind : WalkKind) (priv level table pa : ℕ)
    → IsEntry ram m va level (pte_address va level table)
    → walk_round ram m va kind priv level table ≡ ends (acc_ok pa)
    → IsMapped ram m va kind priv pa
unfolding walk_round
walk_round-ends ram m va kind priv level table pa placed h =
    let at = pte_address va level table in
    let grants = check_pte-Grants m va kind priv level (ram_read ram at 4) pa (ground arith) in
    record {
      level = level;
      at = at;
      placed = placed;
      in_memory = ground arith;
      permitted = ground arith;
      grants = grants;
      same_offset =
          rw (check_pte-address m va kind priv level (ram_read ram at 4) pa (ground arith))
            (leaf_address-offset level va (ram_read ram at 4));
    }

walk_last-ends :
    (ram : ℕ → ℕ) (m : Hart) (va : ℕ) (kind : WalkKind) (priv table pa : ℕ)
    → walk_round ram m va kind priv 1 (root_table m) ≡ next_table table
    → (r : Round) → walk_round ram m va kind priv 0 table ≡ r
    → walk_last r ≡ acc_ok pa
    → IsMapped ram m va kind priv pa
unfolding walk_last
walk_last-ends ram m va kind priv table pa pointed (ends a) e h =
    walk_round-ends ram m va kind priv 0 table pa
      (walk_round-table ram m va kind priv table pointed) (e ∙ ap ends h)
walk_last-ends ram m va kind priv table pa pointed (next_table t) e h = cc

walk_from-ends :
    (ram : ℕ → ℕ) (m : Hart) (va : ℕ) (kind : WalkKind) (priv pa : ℕ) (r : Round)
    → walk_round ram m va kind priv 1 (root_table m) ≡ r
    → walk_from ram m va kind priv r ≡ acc_ok pa
    → IsMapped ram m va kind priv pa
unfolding walk_from
walk_from-ends ram m va kind priv pa (ends a) e h =
    walk_round-ends ram m va kind priv 1 (root_table m) pa
      (IsEntry.of_root (pte_address va 1 (root_table m)) (root_lem m va)) (e ∙ ap ends h)
walk_from-ends ram m va kind priv pa (next_table t) e h =
    walk_last-ends ram m va kind priv t pa e (walk_round ram m va kind priv 0 t) refl h

-- With paging on and a privilege other than machine mode, a translation that succeeds has read a
-- leaf entry in RAM, of the root table or of a table that a valid entry of the root without R, W
-- and X points to, and PMP lets the supervisor read each entry. The leaf has V and A on, and R
-- where W is on; X for a fetch, R for a load or X with MXR on, W and D for a store; U in user
-- mode; and in another mode, where U is on, the access is no fetch and SUM is on. The result is
-- below 2 ^ 32: the page of the entry, or its megapage, whose low page number is zero, with the
-- offset of the virtual address.
pub translate-IsMapped :
    (ram : ℕ → ℕ) (m : Hart) (va : ℕ) (kind : WalkKind) (priv pa : ℕ)
    → has m.satp satp_mode ≡ true
    → priv ≢ priv_m
    → translate ram m va kind priv ≡ acc_ok pa
    → IsMapped ram m va kind priv pa
unfolding translate
translate-IsMapped ram m va kind priv pa on below h =
    walk_from-ends ram m va kind priv pa (walk_round ram m va kind priv 1 (root_table m)) refl
      (ground arith)
