-- ===== src/Emulator/Pmp/Locks.antt =====
-- Locked entries under any sequence of writes.
use tiny_processors.Prelude.{
  ℕ, ◌+◌, ◌-◌, ◌*◌, ◌/◌, ◌^◌, ◌<◌, ◌≡◌, refl, arith, true, ◌==◌, get_or, get_or-set, Bool-cases,
  inl, inr, ◌⊎◌, ◌∙◌, bit_and, List, ap, ==-true,
}
use tiny_processors.Prelude.Bits.{has, has_bit, bit_and-or, bit_and-two_pow}
use tiny_processors.Emulator.Pmp.{
  Pmp, entry_match, entry_allows, legal_cfg, write_cfg, write_pmpcfg, write_pmpaddr, addr_locked,
  pmp_entries, pmp_a, pmp_tor, pmp_l,
}

-- The writes that csrrw, csrrs and csrrc make, in any order.
pub data Written (m : Pmp) : Pmp → Type 0 where
  unwritten : Written m m
  cfg_write : {n : Pmp} (first value : ℕ) → Written m n → Written m (write_pmpcfg first value n)
  addr_write : {n : Pmp} (i value : ℕ) → Written m n → Written m (write_pmpaddr i value n)

abbrev pub IsLocked : Pmp → ℕ → Type 0
IsLocked m i = has (get_or m.pmpcfg i 0) pmp_l ≡ true

-- Entry `i` as it was: its configuration, its address, and, for a TOR entry, its base.
pub record IsKept (i : ℕ) (m n : Pmp) : Type 0 where
  pub cfg_kept : get_or n.pmpcfg i 0 ≡ get_or m.pmpcfg i 0
  pub addr_kept : get_or n.pmpaddr i 0 ≡ get_or m.pmpaddr i 0
  pub base_kept :
      bit_and (get_or m.pmpcfg i 0) pmp_a ≡ pmp_tor
      → (i ≡ 0) ⊎ (get_or n.pmpaddr (i - 1) 0 ≡ get_or m.pmpaddr (i - 1) 0)

write_cfg-keeps :
    (value first k i : ℕ) (m : Pmp)
    → IsLocked m i
    → (get_or (write_cfg value first k m).pmpcfg i 0 ≡ get_or m.pmpcfg i 0)
      × ((write_cfg value first k m).pmpaddr ≡ m.pmpaddr)
unfolding write_cfg
write_cfg-keeps value first k i m locked =
    let v = legal_cfg (bit_and (value / 2 ^ (8 * k)) 0x9f) in
    (ground (arith, get_or-set m.pmpcfg (first + k) i v 0), ground arith)

write_pmpcfg-keeps :
    (first value i : ℕ) (m : Pmp)
    → IsLocked m i
    → (get_or (write_pmpcfg first value m).pmpcfg i 0 ≡ get_or m.pmpcfg i 0)
      × ((write_pmpcfg first value m).pmpaddr ≡ m.pmpaddr)
unfolding write_pmpcfg
write_pmpcfg-keeps first value i m locked =
    let m1 = write_cfg value first 0 m in
    let m2 = write_cfg value first 1 m1 in
    let m3 = write_cfg value first 2 m2 in
    let k0 = write_cfg-keeps value first 0 i m locked in
    let k1 = write_cfg-keeps value first 1 i m1 (rw k0.0 locked) in
    let k2 = write_cfg-keeps value first 2 i m2 (rw (k1.0, k0.0) locked) in
    let k3 = write_cfg-keeps value first 3 i m3 (rw (k2.0, k1.0, k0.0) locked) in
    (k3.0 ∙ k2.0 ∙ k1.0 ∙ k0.0, k3.1 ∙ k2.1 ∙ k1.1 ∙ k0.1)

-- The test of a locked TOR entry, by the two fields of the configuration.
tor_locked :
    (cfg : ℕ)
    → has cfg pmp_l ≡ true
    → bit_and cfg pmp_a ≡ pmp_tor
    → (bit_and cfg (pmp_l + pmp_a) == pmp_l + pmp_tor) ≡ true
tor_locked cfg locked tor = ==-true (bit_and cfg 0x98) 0x88 both
  where
    both : bit_and cfg 0x98 ≡ 0x88
    both = ground (
      arith,
      bit_and-or 8 cfg 0x80 0x18 (omega arith) (omega arith),
      bit_and-two_pow 7 cfg,
      has_bit 7 cfg,
    )

write_pmpaddr-keeps :
    (j value i : ℕ) (m : Pmp)
    → i < pmp_entries
    → IsLocked m i
    → IsKept i m (write_pmpaddr j value m)
unfolding write_pmpaddr addr_locked
write_pmpaddr-keeps j value i m hi locked = record {
  cfg_kept = ground arith;
  addr_kept = ground (arith, get_or-set m.pmpaddr j i value 0);
  base_kept = λ tor. elim (Bool-cases (i == 0)) [
    | inl first ↦ inl (ground arith)
    | inr later ↦
        let above : i - 1 + 1 ≡ i = ground arith in
        inr (
          ground (
            arith,
            get_or-set m.pmpaddr j (i - 1) value 0,
            tor_locked (get_or m.pmpcfg i 0) locked tor,
            ap (λ (n : ℕ). get_or m.pmpcfg n 0) above,
          ))
  ];
}

IsKept-trans : {i : ℕ} {m n p : Pmp} → IsKept i m n → IsKept i n p → IsKept i m p
IsKept-trans a b = record {
  cfg_kept = b.cfg_kept ∙ a.cfg_kept;
  addr_kept = b.addr_kept ∙ a.addr_kept;
  base_kept = λ tor. ground (arith, a.base_kept tor, b.base_kept, a.cfg_kept);
}

write_pmpcfg-IsKept :
    (first value i : ℕ) (m : Pmp) → IsLocked m i → IsKept i m (write_pmpcfg first value m)
write_pmpcfg-IsKept first value i m locked =
    let k = write_pmpcfg-keeps first value i m locked in
    record {
      cfg_kept = k.0;
      addr_kept = ap (λ (l : List ℕ). get_or l i 0) k.1;
      base_kept = λ tor. inr (ap (λ (l : List ℕ). get_or l (i - 1) 0) k.1);
    }

-- For a locked entry `i` below 8, any sequence of writes of pmpcfg and pmpaddr keeps the
-- configuration and the address of the entry and, if it is a TOR entry other than entry 0, the
-- address of entry `i - 1`, which is its base.
pub Written-IsKept :
    {m n : Pmp} (i : ℕ) → i < pmp_entries → IsLocked m i → Written m n → IsKept i m n
Written-IsKept i hi locked unwritten = record {
  cfg_kept = refl;
  addr_kept = refl;
  base_kept = λ tor. inr refl;
}
Written-IsKept i hi locked (cfg_write {n} first value w) =
    let k = Written-IsKept i hi locked w in
    IsKept-trans k (write_pmpcfg-IsKept first value i n (rw k.cfg_kept locked))
Written-IsKept i hi locked (addr_write {n} j value w) =
    let k = Written-IsKept i hi locked w in
    IsKept-trans k (write_pmpaddr-keeps j value i n hi (rw k.cfg_kept locked))

-- For a locked entry `i` below 8, and registers `n` that any sequence of writes of pmpcfg and
-- pmpaddr makes of `m`, entry `i` matches the same words in `n` as in `m` and allows the same
-- accesses.
pub Written-entry :
    {m n : Pmp} (i priv word need : ℕ)
    → i < pmp_entries
    → IsLocked m i
    → Written m n
    → (entry_match n word i ≡ entry_match m word i)
      × (entry_allows priv (get_or n.pmpcfg i 0) need
          ≡ entry_allows priv (get_or m.pmpcfg i 0) need)
unfolding entry_match
Written-entry {m} {n} i priv word need hi locked w =
    let k = Written-IsKept i hi locked w in
    (
      ground (arith, k.cfg_kept, k.addr_kept, k.base_kept),
      ap (λ (c : ℕ). entry_allows priv c need) k.cfg_kept,
    )
