-- ===== src/Emulator/Step/Cycle/Priority.antt =====
-- Which interrupt `step` of tools/rv32emu_core.c takes, if any: the word of the enabled ones, and the loop over `order`.
use tiny_processors.Prelude.{
  ℕ, zero, suc, ◌+◌, ◌/◌, ◌^◌, ◌<◌, ◌≡◌, inl, inr, refl, sym, subst, arith, Bool, true, false, not,
  ◌&&◌, ◌||◌, some, ltb, leb, ◌==◌, ◌!=◌, if◌then◌else◌, bit_and, Bool-cases,
}
use native.Mathlib.Nat.{pow-suc}
use tiny_processors.Prelude.Bits.{test, has, flip, has-shr, test-and, test-zero, test-flip}
use tiny_processors.Emulator.Csr.{Machine, mip_now}
use tiny_processors.Emulator.Hart.Legal.{IsLegal}
use tiny_processors.Emulator.Step.Cycle
use tiny_processors.Emulator.Step.Cycle.Interrupts.{mask_bits, bitless}

-- Interrupt `k` is for the supervisor.
abbrev pub to_supervisor : Machine → ℕ → Bool
to_supervisor m k = test m.hart.mideleg k

-- The mode and its interrupt enable let an interrupt in.
abbrev pub lets_in : Machine → Bool → Bool
lets_in m true = m.hart.priv == 0 || m.hart.priv == 1 && has m.hart.mstatus 0x2
lets_in m false = ltb m.hart.priv 3 || has m.hart.mstatus 0x8

-- Interrupt `k` can be taken: it is pending and enabled, its level lets it in, and no handler is at its first
-- instruction.
abbrev pub can_take : Machine → ℕ → Bool
can_take m k =
    not m.hart.in_trap && test (mip_now m) k && test m.hart.mie k && lets_in m (to_supervisor m k)

-- The place of an interrupt among those of a level: external, software and timer of the machine, then those of the
-- supervisor.
abbrev pub rank : ℕ → ℕ
rank k =
    if k == 11
    then 0
    else if k == 3
    then 1
    else if k == 7
    then 2
    else if k == 9
    then 3
    else if k == 1
    then 4
    else 5

-- Interrupt `k` goes before `j`, or with it.
abbrev pub goes_first : Machine → ℕ → ℕ → Bool
goes_first m k j =
    if to_supervisor m k
    then to_supervisor m j && leb (rank k) (rank j)
    else to_supervisor m j || leb (rank k) (rank j)

first_enabled-set :
    (enabled k : ℕ) → Cycle.first_enabled Cycle.order enabled ≡ some k → test enabled k ≡ true
unfolding Cycle.first_enabled
first_enabled-set enabled k found = ground (
  arith,
  has-shr enabled 1,
  has-shr enabled 3,
  has-shr enabled 5,
  has-shr enabled 7,
  has-shr enabled 9,
  has-shr enabled 11,
)

first_enabled-rank :
    (enabled k j : ℕ)
    → Cycle.first_enabled Cycle.order enabled ≡ some k
    → test enabled j ≡ true
    → (j == 1 || j == 3 || j == 5 || j == 7 || j == 9 || j == 11) ≡ true
    → leb (rank k) (rank j) ≡ true
unfolding Cycle.first_enabled
first_enabled-rank enabled k j found on among = ground (
  arith,
  has-shr enabled 1,
  has-shr enabled 3,
  has-shr enabled 5,
  has-shr enabled 7,
  has-shr enabled 9,
  has-shr enabled 11,
)

-- The two levels of `enabled_interrupts`.
abbrev pub level_of : Machine → Bool → ℕ
level_of m true =
    if lets_in m true
    then bit_and (if m.hart.in_trap then 0 else bit_and (mip_now m) m.hart.mie) m.hart.mideleg
    else 0
level_of m false =
    if lets_in m false
    then bit_and (if m.hart.in_trap then 0 else bit_and (mip_now m) m.hart.mie)
        (flip 32 m.hart.mideleg)
    else 0

-- A word with no bit at `w` or past it.
bits_below : (w x : ℕ) → ((k : ℕ) → test x (w + k) ≡ false) → x < 2 ^ w
unfolding test
bits_below zero x off =
    let none_set : (k : ℕ) → test x k ≡ false =
      λ k. (let e : 0 + k ≡ k = omega arith in subst (λ n. test x n ≡ false) e (off k)) in
    omega (arith, bitless x x (omega arith) none_set)
bits_below (suc w) x off =
    let above : (k : ℕ) → test (x / 2) (w + k) ≡ false = λ k.
      (let e : suc w + k ≡ suc (w + k) = omega arith in subst (λ n. test x n ≡ false) e (off k)) in
    omega (arith, pow-suc 2 w, bits_below w (x / 2) above)

mideleg-lt : (m : Machine) → IsLegal m.hart → m.hart.mideleg < 2 ^ 32
mideleg-lt m l = bits_below 32 m.hart.mideleg (λ k.
    elim (Bool-cases (test m.hart.mideleg (32 + k))) [
      | inr off ↦ off
      | inl on ↦ absurd (ground (arith, mask_bits (32 + k) (l.mideleg (32 + k) on)))
    ])

enabled_low : (m : Machine) (k : ℕ) → IsLegal m.hart → (test m.hart.mie k && not (ltb k 32)) ≡ false
enabled_low m k l = elim (Bool-cases (test m.hart.mie k)) [
  | inr off ↦ rw off refl
  | inl on ↦ ground (arith, mask_bits k (l.mie k on))
]

pub level-test :
    (m : Machine) (k : ℕ)
    → IsLegal m.hart
    → (b : Bool)
    → test (level_of m b) k
      ≡ ((if b then to_supervisor m k else not (to_supervisor m k)) && can_take m k)
level-test m k l true = ground (
  arith,
  test-zero k,
  test-and (mip_now m) m.hart.mie k,
  test-and (bit_and (mip_now m) m.hart.mie) m.hart.mideleg k,
  test-and 0 m.hart.mideleg k,
)
level-test m k l false = ground (
  arith,
  test-zero k,
  test-and (mip_now m) m.hart.mie k,
  test-and (bit_and (mip_now m) m.hart.mie) (flip 32 m.hart.mideleg) k,
  test-and 0 (flip 32 m.hart.mideleg) k,
  test-flip 32 m.hart.mideleg k (mideleg-lt m l),
  enabled_low m k l,
)

pub enabled_lem :
    (m : Machine)
    → Cycle.enabled_interrupts m
      ≡ (if level_of m false != 0 then level_of m false else level_of m true)
unfolding Cycle.enabled_interrupts
enabled_lem m = refl

-- Interrupt `k` can be taken, and goes first among those that can.
abbrev pub IsChosen : Machine → ℕ → Type 0
IsChosen m k = (can_take m k ≡ true) × ((j : ℕ) → can_take m j ≡ true → goes_first m k j ≡ true)

pub level-IsChosen :
    (m : Machine) (k : ℕ) (b : Bool)
    → IsLegal m.hart
    → Cycle.first_enabled Cycle.order (level_of m b) ≡ some k
    → (b ≡ true → level_of m false ≡ 0)
    → IsChosen m k
level-IsChosen m k true l found rest =
    let set : test (level_of m true) k ≡ true = first_enabled-set (level_of m true) k found in
    (
      ground (arith, level-test m k l true),
      λ j ready.
          let codes = mask_bits j (l.mie j (ground arith)) in
          let none_there : test (level_of m false) j ≡ false =
            subst (λ x. test x j ≡ false) (sym (rest refl)) (test-zero j) in
          let same : to_supervisor m j ≡ true = ground (arith, level-test m j l false) in
          let on : test (level_of m true) j ≡ true = ground (arith, level-test m j l true) in
          let order = first_enabled-rank (level_of m true) k j found on codes in
          let above : to_supervisor m k ≡ true = ground (arith, level-test m k l true) in
          rw (above, same, order) refl,
    )
level-IsChosen m k false l found rest =
    let set : test (level_of m false) k ≡ true = first_enabled-set (level_of m false) k found in
    (
      ground (arith, level-test m k l false),
      λ j ready.
          let codes = mask_bits j (l.mie j (ground arith)) in
          let above : to_supervisor m k ≡ false = ground (arith, level-test m k l false) in
          elim (Bool-cases (to_supervisor m j)) [
            | inl lower ↦ rw (above, lower) refl
            | inr same ↦
                let on : test (level_of m false) j ≡ true =
                  ground (arith, level-test m j l false) in
                let order = first_enabled-rank (level_of m false) k j found on codes in
                rw (above, same, order) refl
          ],
    )
