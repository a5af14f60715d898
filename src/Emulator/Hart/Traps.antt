-- ===== src/Emulator/Hart/Traps.antt =====
-- A trap and the return from it: MRET after a trap into machine mode, and SRET after a delegated one, resume the hart where it
-- was, and a trap never lowers the privilege.
use tiny_processors.Prelude.{
  ℕ, ◌^◌, ◌<◌, ◌≤◌, ◌≡◌, refl, arith, Bool, true, false, ◌||◌, ◌==◌, ◌!=◌, if◌then◌else◌, bit_and,
  inl, inr, Bool-cases,
}
use tiny_processors.Prelude.Bits.{test, test-clear, flip, has, has_bit, bit_and-lt, bit_or-lt}
use tiny_processors.Emulator.Pmp.{priv_u, priv_s, priv_m}
use tiny_processors.Emulator.Hart.{
  Hart, unreserved, delegated, status_to_s, status_to_m, status_after_mret, enter_handler, mret,
  sret, mstatus_spp, mstatus_mprv, mstatus_mie, mstatus_sie, mstatus_mpie,
}
use tiny_processors.Emulator.Hart.Status.{
  test-status_to_m, test-status_to_s, test-status_after_mret, test-status_after_sret,
}

-- The three modes of the hart.
abbrev pub is_mode : ℕ → Bool
is_mode p = p == priv_u || (p == priv_s || p == priv_m)

if-lt : {x : ℕ} (c : Bool) → x < 2 ^ 32 → (if c then x else 0) < 2 ^ 32
if-lt true h = h
if-lt false h = omega arith

status_to_m-lt : (s : ℕ) → s < 2 ^ 32 → status_to_m s < 2 ^ 32
unfolding status_to_m
status_to_m-lt s h =
    bit_or-lt 32 _ _ (bit_and-lt 32 s _ h) (if-lt (has s mstatus_mie) (omega arith))

status_to_s-lt : (p s : ℕ) → s < 2 ^ 32 → status_to_s p s < 2 ^ 32
unfolding status_to_s
status_to_s-lt p s h =
    bit_or-lt 32 _ _
      (bit_or-lt 32 _ _ (bit_and-lt 32 s _ h) (if-lt (has s mstatus_sie) (omega arith)))
      (if-lt (p == priv_s) (omega arith))

status_after_mret-lt : (s : ℕ) → s < 2 ^ 32 → status_after_mret s < 2 ^ 32
unfolding status_after_mret
status_after_mret-lt s h =
    bit_or-lt 32 _ _ (bit_or-lt 32 _ _ (bit_and-lt 32 s _ h) (omega arith))
      (if-lt (has s mstatus_mpie) (omega arith))

-- What mstatus loses below machine mode is MPRV (bit 17).
test-mprv_cleared :
    (c : Bool) (s k : ℕ)
    → s < 2 ^ 32
    → (k == 17) ≡ false
    → test (if c then bit_and s (flip 32 mstatus_mprv) else s) k ≡ test s k
test-mprv_cleared true s k h n = ground (arith, test-clear 32 s 17 k (omega arith) h)
test-mprv_cleared false s k h n = refl

-- What a trap and the return from it keep of the hart: its privilege, its pc and the bits of mstatus
-- but those lost.
pub record Resumes (lost : ℕ → Bool) (m n : Hart) : Type 0 where
  pub priv : n.priv ≡ m.priv
  pub pc : n.pc ≡ m.pc
  pub mstatus : (k : ℕ) → lost k ≡ false → test n.mstatus k ≡ test m.mstatus k

-- For a word in mstatus and a cause that is not delegated, MRET after trap entry restores the
-- privilege, the pc and every bit of mstatus but MPIE (bit 7) and MPRV (bit 17).
pub mret-enter_handler :
    (cause tval : ℕ) (m : Hart)
    → m.mstatus < 2 ^ 32
    → delegated cause m ≡ false
    → Resumes (λ k. k == 7 || k == 17) m (mret (enter_handler cause tval m))
unfolding enter_handler mret
mret-enter_handler cause tval m h d = rw d record {
  priv = refl;
  pc = refl;
  mstatus = λ k n.
      let low = status_to_m-lt m.mstatus h in
      ground (
        arith,
        test-mprv_cleared (m.priv != priv_m) (status_after_mret (status_to_m m.mstatus)) k
            (status_after_mret-lt (status_to_m m.mstatus) low),
        test-status_after_mret (status_to_m m.mstatus) k low,
        test-status_to_m m.mstatus k h,
        test-status_to_m m.mstatus 7 h,
      );
}

delegated-below_machine :
    (cause : ℕ) (m : Hart) → delegated cause m ≡ true → (m.priv == priv_m) ≡ false
unfolding delegated
delegated-below_machine cause m d = ground arith

-- For a word in mstatus, a privilege of 0, 1 or 3 and a delegated cause, SRET after trap entry
-- restores the privilege, the pc and every bit of mstatus but SPIE (bit 5), SPP (bit 8) and MPRV
-- (bit 17).
pub sret-enter_handler :
    (cause tval : ℕ) (m : Hart)
    → m.mstatus < 2 ^ 32
    → is_mode m.priv ≡ true
    → delegated cause m ≡ true
    → Resumes (λ k. k == 5 || (k == 8 || k == 17)) m (sret (enter_handler cause tval m))
unfolding enter_handler sret
sret-enter_handler cause tval m h p d = rw d record {
  priv = mode_from_spp;
  pc = refl;
  mstatus = λ k n.
      let low = status_to_s-lt m.priv m.mstatus h in
      ground (
        arith,
        test-status_after_sret (status_to_s m.priv m.mstatus) k low,
        test-status_to_s m.priv m.mstatus k h,
        test-status_to_s m.priv m.mstatus 5 h,
      );
}
  where
    mode_from_spp :
        (if has (status_to_s m.priv m.mstatus) mstatus_spp then priv_s else priv_u) ≡ m.priv
    mode_from_spp = ground (
      arith,
      has_bit 8 (status_to_s m.priv m.mstatus),
      test-status_to_s m.priv m.mstatus 8 h,
      delegated-below_machine cause m d,
    )

-- For a privilege of 0, 1 or 3, trap entry never lowers the privilege, and it drops the
-- reservation of LR.
pub enter_handler-priv :
    (cause tval : ℕ) (m : Hart)
    → is_mode m.priv ≡ true
    → (m.priv ≤ (enter_handler cause tval m).priv) × ((enter_handler cause tval m).reserved ≡ false)
unfolding enter_handler delegated
enter_handler-priv cause tval m p = elim (Bool-cases (delegated cause m)) [
  | inl on ↦ rw on (ground arith, refl)
  | inr off ↦ rw off (ground arith, refl)
]

-- Trap entry does not read the reservation.
pub enter_handler-unreserved :
    (cause tval : ℕ) (m : Hart)
    → unreserved (enter_handler cause tval m) ≡ enter_handler cause tval (unreserved m)
unfolding enter_handler delegated
enter_handler-unreserved cause tval m = elim (Bool-cases (delegated cause m)) [
  | inl on ↦ rw (delegated, on) refl
  | inr off ↦ rw (delegated, off) refl
]
