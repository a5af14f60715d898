-- ===== src/Emulator/Pmp/Decision.antt =====
-- Which entry decides an access.
use tiny_processors.Prelude.{
  ℕ, zero, suc, ◌+◌, ◌-◌, ◌/◌, ◌^◌, ◌<◌, ◌≤◌, ◌≡◌, ◌∙◌, sym, ap, refl, arith, true, false, ◌==◌,
  not, ◌&&◌, ◌⊎◌, get_or, Bool-cases, inl, inr, bit_and, if◌then◌else◌,
}
use tiny_processors.Prelude.Bits.{
  has, has_bit, test, test-and, test_ext, bit_and-lt_right, bit_and-or, bit_and-two_pow,
}
use tiny_processors.Emulator.Pmp.{
  Pmp, entry_match, entry_allows, allows_loop, pmp_allows, pmp_entries, pmp_l, pmp_a, priv_m,
  napot_match,
}

module _ (priv : ℕ) (m : Pmp) (word need : ℕ) where
  loop_first :
      (left i k : ℕ)
      → i ≤ k
      → k < i + left
      → ((j : ℕ) → j < k → entry_match m word j ≡ false)
      → entry_match m word k ≡ true
      → allows_loop priv m word need left i ≡ entry_allows priv (get_or m.pmpcfg k 0) need
  unfolding allows_loop
  loop_first zero i k lo hi before hit = absurd (omega arith)
  loop_first (suc left) i k lo hi before hit = elim (Bool-cases (i == k)) [
    | inl here ↦ let e : i ≡ k = ground arith in rw (e, hit)
    | inr later ↦
        rw (before i (ground arith))
          (loop_first left (i + 1) k (ground arith) (omega arith) before hit)
  ]

  loop_none :
      (left i : ℕ)
      → ((j : ℕ) → j < i + left → entry_match m word j ≡ false)
      → allows_loop priv m word need left i ≡ (priv == priv_m)
  unfolding allows_loop
  loop_none zero i none_match = refl
  loop_none (suc left) i none_match =
      rw (none_match i (omega arith)) (loop_none left (i + 1) (λ j h. none_match j (omega arith)))

pmp_allows-first :
    (priv : ℕ) (m : Pmp) (addr need k : ℕ)
    → k < pmp_entries
    → ((j : ℕ) → j < k → entry_match m (addr / 4) j ≡ false)
    → entry_match m (addr / 4) k ≡ true
    → pmp_allows priv m addr need ≡ entry_allows priv (get_or m.pmpcfg k 0) need
unfolding pmp_allows
pmp_allows-first priv m addr need k hk before hit =
    loop_first priv m (addr / 4) need pmp_entries 0 k (omega arith) (omega arith) before hit

pmp_allows-none :
    (priv : ℕ) (m : Pmp) (addr need : ℕ)
    → ((j : ℕ) → j < pmp_entries → entry_match m (addr / 4) j ≡ false)
    → pmp_allows priv m addr need ≡ (priv == priv_m)
unfolding pmp_allows
pmp_allows-none priv m addr need none_match =
    loop_none priv m (addr / 4) need pmp_entries 0 (λ j h. none_match j (omega arith))

-- The words that entry `k` is for: the mode is in bits 3 and 4 of its configuration.
abbrev pub Covers : Pmp → ℕ → ℕ → Type 0
Covers m word k =
    let cfg = get_or m.pmpcfg k 0 in
    let at = get_or m.pmpaddr k 0 in
    ((test cfg 3 ≡ true)
      × (test cfg 4 ≡ false)
      × ((k ≡ 0) ⊎ (get_or m.pmpaddr (k - 1) 0 ≤ word))
      × (word < at))
    ⊎ ((test cfg 3 ≡ false) × (test cfg 4 ≡ true) × (word ≡ at))
    ⊎ ((test cfg 3 ≡ true) × (test cfg 4 ≡ true) × (napot_match word at ≡ true))

mode_bits :
    (cfg : ℕ) → bit_and cfg pmp_a ≡ (if test cfg 3 then 8 else 0) + (if test cfg 4 then 16 else 0)
mode_bits cfg = ground (
  arith,
  bit_and-or 32 cfg 8 16 (omega arith) (omega arith),
  bit_and-two_pow 3 cfg,
  bit_and-two_pow 4 cfg,
)

entry_match-Covers :
    (m : Pmp) (word k : ℕ)
    → (entry_match m word k ≡ true → Covers m word k)
      × (Covers m word k → entry_match m word k ≡ true)
unfolding entry_match
entry_match-Covers m word k = (there, back)
  where
    there : entry_match m word k ≡ true → Covers m word k
    there h = ground (arith, mode_bits (get_or m.pmpcfg k 0))

    back : Covers m word k → entry_match m word k ≡ true
    back h = ground (arith, mode_bits (get_or m.pmpcfg k 0))

-- What an entry permits: machine mode where bit 7, the lock, is off, and any mode where every bit of the need is on.
abbrev pub Permits : ℕ → ℕ → ℕ → Type 0
Permits priv cfg need =
    ((priv ≡ priv_m) × (test cfg 7 ≡ false)) ⊎ ((b : ℕ) → test need b ≡ true → test cfg b ≡ true)

entry_allows-Permits :
    (priv cfg need : ℕ)
    → need < 2 ^ 32
    → (entry_allows priv cfg need ≡ true → Permits priv cfg need)
      × (Permits priv cfg need → entry_allows priv cfg need ≡ true)
unfolding entry_allows
entry_allows-Permits priv cfg need h = (there, back)
  where
    there : entry_allows priv cfg need ≡ true → Permits priv cfg need
    there allowed = elim (Bool-cases (priv == priv_m && not (has cfg pmp_l))) [
      | inl open_to_machine ↦ inl (ground arith, ground (arith, has_bit 7 cfg))
      | inr other ↦
          let same : bit_and cfg need ≡ need = ground arith in
          inr (λ b needed. ground (arith, needed, test-and cfg need b, ap (λ n. test n b) same))
    ]

    back : Permits priv cfg need → entry_allows priv cfg need ≡ true
    back (inl (machine, unlocked)) = ground (arith, has_bit 7 cfg)
    back (inr granted) =
        let same : bit_and cfg need ≡ need =
          test_ext 32 (bit_and cfg need) need (bit_and-lt_right 32 cfg need h) h
            (λ b. ground (arith, test-and cfg need b, granted b)) in
        ground (arith, same)

-- Entry `k` is the first of the 8 that is for the word.
abbrev pub IsFirst : Pmp → ℕ → ℕ → Type 0
IsFirst m word k = (k < 8) × Covers m word k × ((j : ℕ) → j < k → ¬ Covers m word j)

abbrev pub Allowed : ℕ → Pmp → ℕ → ℕ → Type 0
Allowed priv m word need =
    ((k : ℕ) × IsFirst m word k × Permits priv (get_or m.pmpcfg k 0) need)
    ⊎ ((priv ≡ priv_m) × ((j : ℕ) → j < 8 → ¬ Covers m word j))

first_match :
    (m : Pmp) (word left : ℕ)
    → ((k : ℕ) × (k < left)
        × (entry_match m word k ≡ true)
        × ((j : ℕ) → j < k → entry_match m word j ≡ false))
      ⊎ ((j : ℕ) → j < left → entry_match m word j ≡ false)
first_match m word zero = inr (λ j h. absurd (omega arith))
first_match m word (suc left) = elim (first_match m word left) [
  | inl (k, inside, hit, before) ↦ inl (k, omega arith, hit, before)
  | inr missed ↦ elim (Bool-cases (entry_match m word left)) [
    | inl hit ↦ inl (left, omega arith, hit, missed)
    | inr not_here ↦ inr (λ j inside. elim (Bool-cases (j == left)) [
      | inl here ↦ let e : j ≡ left = ground arith in rw e not_here
      | inr away ↦ missed j (ground arith)
    ])
  ]
]

unmatched : (m : Pmp) (word j : ℕ) → entry_match m word j ≡ false → ¬ Covers m word j
unmatched m word j missed covered = let hit = (entry_match-Covers m word j).1 covered in cc

uncovered : (m : Pmp) (word j : ℕ) → ¬ Covers m word j → entry_match m word j ≡ false
uncovered m word j away = elim (Bool-cases (entry_match m word j)) [
  | inl hit ↦ absurd (away ((entry_match-Covers m word j).0 hit))
  | inr missed ↦ missed
]

-- For a need below 2 ^ 32, `pmp_allows` allows an access if and only if the first of the 8
-- entries that covers the word of the address permits it, or no entry covers it and the mode is
-- machine mode. By bits 3 and 4 of its configuration an entry covers the words from the address
-- of the entry below (0 for entry 0) up to its own, or its own word, or those of the NAPOT test,
-- or none; it permits machine mode where bit 7 is off, and any mode where every bit of the need
-- is on.
pub pmp_allows-Allowed :
    (priv : ℕ) (m : Pmp) (addr need : ℕ)
    → need < 2 ^ 32
    → (pmp_allows priv m addr need ≡ true → Allowed priv m (addr / 4) need)
      × (Allowed priv m (addr / 4) need → pmp_allows priv m addr need ≡ true)
pmp_allows-Allowed priv m addr need h = (there, back)
  where
    word : ℕ
    word = addr / 4

    there : pmp_allows priv m addr need ≡ true → Allowed priv m word need
    there allowed = elim (first_match m word 8) [
      | inl (k, inside, hit, before) ↦
          let decided = pmp_allows-first priv m addr need k inside before hit in
          inl (
            k,
            (
              inside,
              (entry_match-Covers m word k).0 hit,
              λ j below. unmatched m word j (before j below),
            ),
            (entry_allows-Permits priv (get_or m.pmpcfg k 0) need h).0 (sym decided ∙ allowed),
          )
      | inr missed ↦
          let decided = pmp_allows-none priv m addr need missed in
          inr (ground (arith, decided, allowed), λ j inside. unmatched m word j (missed j inside))
    ]

    back : Allowed priv m word need → pmp_allows priv m addr need ≡ true
    back (inl (k, (inside, covered, before), permitted)) =
        pmp_allows-first priv m addr need k inside (λ j below. uncovered m word j (before j below))
          ((entry_match-Covers m word k).1 covered)
        ∙ (entry_allows-Permits priv (get_or m.pmpcfg k 0) need h).1 permitted
    back (inr (machine, away)) =
        pmp_allows-none priv m addr need (λ j inside. uncovered m word j (away j inside))
        ∙ ground arith
