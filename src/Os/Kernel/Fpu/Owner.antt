-- ===== src/Os/Kernel/Fpu/Owner.antt =====
-- Where no live process but the owner of the FPU has its FS field on, a claim of the FPU never panics.
use tiny_processors.Prelude.{
  ℕ, suc, ◌+◌, ◌^◌, ◌<◌, ◌≡◌, ◌≢◌, refl, sym, ◌∙◌, ap, inl, inr, arith, Bool, true, false, not,
  ◌&&◌, ◌||◌, List, [], ◌∷◌, none, some, ◌==◌, ◌!=◌, ltb, Bool-cases, Option-cases, get_or, set,
  length, get_or-set, get_or-past, bit_and, bit_or,
}
use tiny_processors.Prelude.Bits.{flip, test_ext, test-and, test-flip, test-zero, bit_and-lt_right}
use tiny_processors.Os.Kernel.{
  Kernel, Board, Outcome, returns, halts, panics, Proc, no_proc, alive, proc_at, mstatus_fs,
}
use tiny_processors.Os.Kernel.Fpu.{
  floating_instruction, fs_on, another_floats, without_fs, give_up, take_fpu, claim_fpu,
}

-- Only the owner runs with FS on.
abbrev pub IsOwned : {B D : Type 0} → Kernel B D → Type 0
IsOwned k = (i : ℕ) → alive (proc_at k i) ≡ true → fs_on (proc_at k i) ≡ true → k.fpu_owner ≡ some i

cleared : (m mask : ℕ) → mask < 2 ^ 32 → bit_and (bit_and m (flip 32 mask)) mask ≡ 0
cleared m mask h =
    test_ext 32 _ 0 (bit_and-lt_right 32 (bit_and m (flip 32 mask)) mask h) (omega arith) (λ k.
      ground (
        arith,
        test-and (bit_and m (flip 32 mask)) mask k,
        test-and m (flip 32 mask) k,
        test-flip 32 mask k h,
        test-zero k,
      ))

without_fs-off : (p : Proc) → fs_on (without_fs p) ≡ false
without_fs-off p = rw (cleared p.mstatus mstatus_fs (omega arith)) refl

another_floats-none :
    (i b : ℕ) (procs : List Proc)
    → ((j : ℕ)
        → i ≢ b + j
        → alive (get_or procs j no_proc) ≡ true
        → fs_on (get_or procs j no_proc) ≡ false)
    → another_floats i b procs ≡ false
unfolding another_floats
another_floats-none i b [] off = refl
another_floats-none i b (p ∷ rest) off =
    let tail : another_floats i (b + 1) rest ≡ false =
      another_floats-none i (b + 1) rest (λ j away. off (suc j) (λ e. away (ground arith))) in
    elim (Bool-cases (i != b && alive p)) [
      | inl counts ↦
          let here : fs_on p ≡ false = off 0 (λ e. ground arith) (ground arith) in
          rw (counts, here, tail) refl
      | inr skipped ↦ rw (skipped, tail) refl
    ]

module _ {B D : Type 0} (board : Board B) where
  given-off :
      (o j : ℕ) (k : Kernel B D)
      → IsOwned k
      → k.fpu_owner ≡ some o
      → alive (get_or (set k.procs o (without_fs (proc_at k o))) j no_proc) ≡ true
      → fs_on (get_or (set k.procs o (without_fs (proc_at k o))) j no_proc) ≡ false
  given-off o j k owned owner = elim (Bool-cases (o == j && ltb o (length k.procs))) [
    | inl here ↦
        let is : get_or (set k.procs o (without_fs (proc_at k o))) j no_proc
            ≡ without_fs (proc_at k o) =
          get_or-set k.procs o j (without_fs (proc_at k o)) no_proc ∙ rw here refl in
        rw is (λ lives. without_fs-off (proc_at k o))
    | inr away ↦
        let is : get_or (set k.procs o (without_fs (proc_at k o))) j no_proc ≡ proc_at k j =
          get_or-set k.procs o j (without_fs (proc_at k o)) no_proc ∙ rw away refl in
        rw is (λ lives. elim (Bool-cases (fs_on (proc_at k j))) [
          | inr off ↦ off
          | inl on ↦ absurd (no_other away lives on)
        ])
  ]
    where
      no_other :
          (o == j && ltb o (length k.procs)) ≡ false
          → alive (proc_at k j) ≡ true
          → fs_on (proc_at k j) ≡ true
          → ⊥
      no_other away lives on =
          let same_owner : some o ≡ some j = sym owner ∙ owned j lives on in
          let same : o ≡ j = cc in
          let past : proc_at k j ≡ no_proc = get_or-past k.procs j no_proc (ground arith) in
          let dead : alive no_proc ≡ true = rw past at lives in cc

  -- Once the owner has given the FPU up, no live process has its FS field on.
  give_up-off :
      (k : Kernel B D)
      → IsOwned k
      → (j : ℕ) → alive (proc_at (give_up board k.fpu_owner k) j) ≡ true
      → fs_on (proc_at (give_up board k.fpu_owner k) j) ≡ false
  unfolding give_up
  give_up-off k owned j = elim (Option-cases k.fpu_owner) [
    | inl unowned ↦
        rw (unowned, give_up)
          (λ lives. elim (Bool-cases (fs_on (proc_at k j))) [
            | inr off ↦ off
            | inl on ↦ let bad : none ≡ some j = sym unowned ∙ owned j lives on in cc
          ])
    | inr o ↦ elim (Bool-cases (bit_and (proc_at k o.0).mstatus mstatus_fs == mstatus_fs)) [
      | inl dirty ↦ rw (o.1, dirty, give_up) (given-off o.0 j k owned o.1)
      | inr clean ↦ rw (o.1, clean, give_up) (given-off o.0 j k owned o.1)
    ]
  ]

  take_fpu-off :
      (i : ℕ) (k : Kernel B D)
      → ((j : ℕ) → alive (proc_at k j) ≡ true → fs_on (proc_at k j) ≡ false)
      → (j : ℕ) → i ≢ j
      → alive (proc_at (take_fpu board i k) j) ≡ true
      → fs_on (proc_at (take_fpu board i k) j) ≡ false
  unfolding take_fpu
  take_fpu-off i k off j away =
      let taken : Proc = record (proc_at k i) { mstatus = bit_or (proc_at k i).mstatus 0x4000 } in
      let is : get_or (set k.procs i taken) j no_proc ≡ proc_at k j =
        get_or-set k.procs i j taken no_proc ∙ ground arith in
      rw is (off j)

  -- What a claim leaves: it returns, and only the owner runs with FS on.
  abbrev pub Claims : Outcome B D Bool → Type 0
  Claims (returns claimed k) = IsOwned k
  Claims (halts code k) = ⊥
  Claims (panics k) = ⊥

  taken-IsOwned :
      (i : ℕ) (k : Kernel B D)
      → ((j : ℕ)
          → i ≢ j
          → alive (proc_at (take_fpu board i k) j) ≡ true
          → fs_on (proc_at (take_fpu board i k) j) ≡ false)
      → IsOwned (take_fpu board i k)
  unfolding take_fpu
  taken-IsOwned i k off j lives on = elim (Bool-cases (i == j)) [
    | inl here ↦ let same : i ≡ j = ground arith in ap some same
    | inr away ↦
        let is_off : fs_on (proc_at (take_fpu board i k) j) ≡ false =
          off j (λ e. ground arith) lives in
        absurd (ground (arith, is_off, on))
  ]

  -- In a kernel where no live process but the owner of the FPU has its FS field on, `claim_fpu`
  -- of any process and word does not panic: it returns, and again no live process but the owner
  -- has its FS field on.
  pub claim_fpu-Claims :
      (i word : ℕ) (k : Kernel B D) → IsOwned k → Claims (claim_fpu board i word k)
  unfolding claim_fpu
  claim_fpu-Claims i word k owned =
      elim (Bool-cases (fs_on (proc_at k i) || not (floating_instruction word))) [
        | inl other ↦ rw (other, Claims, claim_fpu) owned
        | inr needed ↦ rw (needed, alone, Claims, claim_fpu) (taken-IsOwned i given off)
      ]
    where
      given : Kernel B D
      given = give_up board k.fpu_owner k

      off :
          (j : ℕ)
          → i ≢ j
          → alive (proc_at (take_fpu board i given) j) ≡ true
          → fs_on (proc_at (take_fpu board i given) j) ≡ false
      off = take_fpu-off i given (give_up-off k owned)

      alone : another_floats i 0 (take_fpu board i given).procs ≡ false
      alone =
          another_floats-none i 0 (take_fpu board i given).procs
            (λ j away. off j (λ e. away (ground arith)))
