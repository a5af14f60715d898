-- ===== src/Emulator/Plic/Gateway.antt =====
-- The gateways over any run of the controller: samplings, loads and stores in any order.
use tiny_processors.Prelude.{
  ℕ, ◌/◌, ◌^◌, ◌<◌, ◌≡◌, arith, true, false, not, ◌&&◌, ◌==◌, bit_and, get_or, length, ◌||◌, ◌!=◌,
  ltb, set, length-set, get_or-set, ◌∙◌, Bool-cases, inl, inr, if◌then◌else◌,
}
use tiny_processors.Prelude.Bits.{
  test, test-and, test-or, test-clear, test-and_not, flip, bit_and-lt, bit_and-lt_right, bit_or-lt,
  two_pow-lt, test-two_pow, has-shr, bit_and-mask, has,
}
use tiny_processors.Emulator.Access.{OnOk, on_ok}
use tiny_processors.Emulator.Plic.{
  Plic, plic_sample, plic_load, plic_store, plic_claim, plic_complete, plic_best, plic_wired,
  plic_sources,
}
use tiny_processors.Emulator.Plic.Choice.{plic_best-IsRequest}

-- The words stay words, only the wired sources have state, and no source is both claimed and
-- pending.
pub record IsValid (p : Plic) : Type 0 where
  pub claimed_word : p.claimed < 2 ^ 32
  pub pending_word : p.pending < 2 ^ 32
  pub apart : (k : ℕ) → test p.claimed k ≡ true → test p.pending k ≡ false
  pub pending_wired : (k : ℕ) → test p.pending k ≡ true → test plic_wired k ≡ true
  pub enable_wired : (k : ℕ) → test p.enable k ≡ true → test plic_wired k ≡ true
  pub threshold_lt : p.threshold < 8
  pub priority_lt : (k : ℕ) → get_or p.priority k 0 < 8
  pub priority_wired : (k : ℕ) → test plic_wired k ≡ false → get_or p.priority k 0 ≡ 0
  pub sources : length p.priority ≡ plic_sources

-- The bits that each operation leaves.
pub test-sample :
    (lines : ℕ) (p : Plic) (k : ℕ)
    → p.claimed < 2 ^ 32
    → test (plic_sample lines p).pending k
      ≡ (test p.pending k || (test lines k && (test plic_wired k && not (test p.claimed k))))
unfolding plic_sample
test-sample lines p k h = ground (
  arith,
  test-or p.pending (bit_and (bit_and lines plic_wired) (flip 32 p.claimed)) k,
  test-and_not 32 (bit_and lines plic_wired) p.claimed k
      (bit_and-lt_right 32 lines plic_wired (omega arith)) h,
  test-and lines plic_wired k,
)

pub test-claim :
    (id : ℕ) (p : Plic) (k : ℕ)
    → id < 32
    → p.pending < 2 ^ 32
    → (test (plic_claim id p).pending k ≡ (test p.pending k && k != id))
      × (test (plic_claim id p).claimed k ≡ (test p.claimed k || (k == id && k != 0)))
unfolding plic_claim
test-claim id p k h hp = (
  test-clear 32 p.pending id k h hp,
  ground (
    arith,
    test-or p.claimed (bit_and (2 ^ id) (flip 32 1)) k,
    test-clear 32 (2 ^ id) 0 k (omega arith) (two_pow-lt id 32 h),
    test-two_pow id k,
  ),
)

pub test-plic_complete :
    (value : ℕ) (p : Plic) (k : ℕ)
    → p.claimed < 2 ^ 32
    → test (plic_complete value p).claimed k
      ≡ (test p.claimed k && not (k == value && (ltb value plic_sources && test p.enable value)))
unfolding plic_complete
test-plic_complete value p k h =
    ground (arith, has-shr p.enable value, test-clear 32 p.claimed value k)

pub plic_sample-IsValid : (lines : ℕ) {p : Plic} → IsValid p → IsValid (plic_sample lines p)
plic_sample-IsValid lines {p} v = record {
  claimed_word = unfold plic_sample in v.claimed_word;
  pending_word =
      unfold plic_sample in
      bit_or-lt 32 _ _ v.pending_word
        (bit_and-lt 32 _ _ (bit_and-lt_right 32 lines plic_wired (omega arith)));
  apart = λ k c.
      let c' : test p.claimed k ≡ true = unfold plic_sample in c in
      ground (arith, v.apart k, test-sample lines p k v.claimed_word);
  pending_wired = λ k c. ground (arith, v.pending_wired k, test-sample lines p k v.claimed_word);
  enable_wired = unfold plic_sample in v.enable_wired;
  threshold_lt = unfold plic_sample in v.threshold_lt;
  priority_lt = unfold plic_sample in v.priority_lt;
  priority_wired = unfold plic_sample in v.priority_wired;
  sources = unfold plic_sample in v.sources;
}

pub plic_claim-IsValid : (id : ℕ) {p : Plic} → id < 32 → IsValid p → IsValid (plic_claim id p)
plic_claim-IsValid id {p} h v = record {
  claimed_word =
      unfold plic_claim in bit_or-lt 32 _ _ v.claimed_word (bit_and-lt 32 _ _ (two_pow-lt id 32 h));
  pending_word = unfold plic_claim in bit_and-lt 32 _ _ v.pending_word;
  apart = λ k c. ground (arith, v.apart k, test-claim id p k h v.pending_word);
  pending_wired = λ k c. ground (arith, v.pending_wired k, test-claim id p k h v.pending_word);
  enable_wired = unfold plic_claim in v.enable_wired;
  threshold_lt = unfold plic_claim in v.threshold_lt;
  priority_lt = unfold plic_claim in v.priority_lt;
  priority_wired = unfold plic_claim in v.priority_wired;
  sources = unfold plic_claim in v.sources;
}

claimed-complete_lt :
    (value : ℕ) (p : Plic) → p.claimed < 2 ^ 32 → (plic_complete value p).claimed < 2 ^ 32
unfolding plic_complete
claimed-complete_lt value p h = ground (arith, bit_and-lt 32 p.claimed (flip 32 (2 ^ value)))

-- A completion writes the claimed word alone.
complete_keeps :
    (value : ℕ) (p : Plic)
    → plic_complete value p ≡ record p { claimed = (plic_complete value p).claimed }
unfolding plic_complete
complete_keeps value p = ground arith

pub plic_complete-IsValid : (value : ℕ) {p : Plic} → IsValid p → IsValid (plic_complete value p)
plic_complete-IsValid value {p} v = rw (complete_keeps value p) record {
  claimed_word = claimed-complete_lt value p v.claimed_word;
  pending_word = v.pending_word;
  apart = λ k c. ground (arith, v.apart k, test-plic_complete value p k v.claimed_word);
  pending_wired = v.pending_wired;
  enable_wired = v.enable_wired;
  threshold_lt = v.threshold_lt;
  priority_lt = v.priority_lt;
  priority_wired = v.priority_wired;
  sources = v.sources;
}

set_priority-IsValid :
    (i value : ℕ) {p : Plic}
    → has (plic_wired / 2 ^ i) 1 ≡ true
    → IsValid p
    → IsValid (record p { priority = set p.priority i (bit_and value 7) })
set_priority-IsValid i value {p} w v = record {
  claimed_word = v.claimed_word;
  pending_word = v.pending_word;
  apart = v.apart;
  pending_wired = v.pending_wired;
  enable_wired = v.enable_wired;
  threshold_lt = v.threshold_lt;
  priority_lt = λ k.
      ground (
        arith,
        get_or-set p.priority i k (bit_and value 7) 0,
        bit_and-mask 3 value,
        v.priority_lt k,
      );
  priority_wired = λ k c. ground (
    arith,
    get_or-set p.priority i k (bit_and value 7) 0,
    has-shr plic_wired i,
    v.priority_wired k,
  );
  sources = length-set p.priority i (bit_and value 7) ∙ v.sources;
}

set_enable-IsValid :
    (value : ℕ) {p : Plic} → IsValid p → IsValid (record p { enable = bit_and value plic_wired })
set_enable-IsValid value {p} v = record {
  claimed_word = v.claimed_word;
  pending_word = v.pending_word;
  apart = v.apart;
  pending_wired = v.pending_wired;
  enable_wired = λ k c. ground (arith, test-and value plic_wired k);
  threshold_lt = v.threshold_lt;
  priority_lt = v.priority_lt;
  priority_wired = v.priority_wired;
  sources = v.sources;
}

set_threshold-IsValid :
    (value : ℕ) {p : Plic} → IsValid p → IsValid (record p { threshold = bit_and value 7 })
set_threshold-IsValid value {p} v = record {
  claimed_word = v.claimed_word;
  pending_word = v.pending_word;
  apart = v.apart;
  pending_wired = v.pending_wired;
  enable_wired = v.enable_wired;
  threshold_lt = omega (arith, bit_and-mask 3 value);
  priority_lt = v.priority_lt;
  priority_wired = v.priority_wired;
  sources = v.sources;
}

pub plic_best_lt : (p : Plic) → plic_best p < 32
plic_best_lt p = ground (arith, plic_best-IsRequest p)

pub plic_load-IsValid :
    (offset width : ℕ) {p : Plic}
    → IsValid p
    → OnOk (λ (r : ℕ × Plic). IsValid r.1) (plic_load offset width p)
unfolding plic_load
plic_load-IsValid offset width {p} v =
    search (on_ok, plic_claim-IsValid (plic_best p) (plic_best_lt p) v) depth 16

pub plic_store-IsValid :
    (offset width value : ℕ) {p : Plic} → IsValid p → OnOk IsValid (plic_store offset width value p)
unfolding plic_store
plic_store-IsValid offset width value {p} v =
    search
      (
        on_ok,
        write,
        set_enable-IsValid value v,
        set_threshold-IsValid value v,
        plic_complete-IsValid value v,
      )
      depth 16
  where
    write : IsValid (
        if has (plic_wired / 2 ^ (offset / 4)) 1
        then record p { priority = set p.priority (offset / 4) (bit_and value 7) }
        else p)
    write = elim (Bool-cases (has (plic_wired / 2 ^ (offset / 4)) 1)) [
      | inl w ↦ rw w (set_priority-IsValid (offset / 4) value w v)
      | inr u ↦ rw u v
    ]
