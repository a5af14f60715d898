-- ===== src/Emulator/Plic/Runs.antt =====
-- Runs of the interrupt controller: samplings, loads and stores in any order.
use tiny_processors.Prelude.{
  ℕ, ◌<◌, ◌≡◌, ◌≢◌, refl, arith, true, false, ◌==◌, ltb, get_or-replicate, if◌then◌else◌, bit_and,
  ◌^◌, ◌/◌, set,
}
use tiny_processors.Prelude.Bits.{test, test-zero, test_past, has}
use tiny_processors.Emulator.Access.{acc_ok, OnOk, on_ok}
use tiny_processors.Emulator.Plic.{
  Plic, plic_reset, plic_sample, plic_load, plic_store, plic_claim, plic_complete, plic_best,
  plic_wired, plic_sources, plic_claim_at,
}
use tiny_processors.Emulator.Plic.Choice.{plic_best-IsRequest}
use tiny_processors.Emulator.Plic.Gateway.{
  IsValid, test-sample, test-claim, test-plic_complete, plic_sample-IsValid, plic_load-IsValid,
  plic_store-IsValid, plic_best_lt, plic_claim-IsValid, plic_complete-IsValid,
}

pub data PlicStep (p : Plic) (q : Plic) : Type 0 where
  sample : (lines : ℕ) → q ≡ plic_sample lines p → PlicStep p q
  load : (offset width value : ℕ) → plic_load offset width p ≡ acc_ok (value, q) → PlicStep p q
  store : (offset width value : ℕ) → plic_store offset width value p ≡ acc_ok q → PlicStep p q

pub data PlicReach (p : Plic) : Plic → Type 0 where
  here : PlicReach p p
  next : {q r : Plic} → PlicReach p q → PlicStep q r → PlicReach p r

pub PlicStep-IsValid : {p q : Plic} → PlicStep p q → IsValid p → IsValid q
PlicStep-IsValid (sample lines e) v = rw e (plic_sample-IsValid lines v)
PlicStep-IsValid (load offset width value e) v = (plic_load-IsValid offset width v).at _ e
PlicStep-IsValid (store offset width value e) v = (plic_store-IsValid offset width value v).at _ e

plic_reset-IsValid : IsValid plic_reset
unfolding plic_reset
plic_reset-IsValid = record {
  claimed_word = omega arith;
  pending_word = omega arith;
  apart = λ k c. test-zero k;
  pending_wired = λ k c. cc (test-zero k);
  enable_wired = λ k c. cc (test-zero k);
  threshold_lt = omega arith;
  priority_lt = λ k. rw (get_or-replicate {A = ℕ} plic_sources k 0) (omega arith);
  priority_wired = λ k c. get_or-replicate plic_sources k 0;
  sources = refl;
}

-- In every state that samplings, loads and stores reach from reset, the pending and claimed words
-- fit 32 bits, enables, requests and nonzero priorities are those of wired sources, priorities
-- and the threshold are below 8, and no source is both claimed and pending.
pub PlicReach-IsValid : {q : Plic} → PlicReach plic_reset q → IsValid q
PlicReach-IsValid here = plic_reset-IsValid
PlicReach-IsValid (next r s) = PlicStep-IsValid s (PlicReach-IsValid r)

-- Runs with no completion of source `id`: no word `id` stored to the claim register.
pub data Undone (id : ℕ) (p : Plic) : Plic → Type 0 where
  claimed_at : Undone id p p
  sampled : {q : Plic} (lines : ℕ) → Undone id p q → Undone id p (plic_sample lines q)
  loaded :
      {q r : Plic} (offset width value : ℕ)
      → Undone id p q
      → plic_load offset width q ≡ acc_ok (value, r)
      → Undone id p r
  stored :
      {q r : Plic} (offset width value : ℕ)
      → Undone id p q
      → plic_store offset width value q ≡ acc_ok r
      → ¬ ((offset ≡ plic_claim_at) × (value ≡ id))
      → Undone id p r

abbrev IsClaimed : ℕ → Plic → Type 0
IsClaimed id p = test p.claimed id ≡ true

IsClaimed-sample : (id lines : ℕ) (p : Plic) → IsClaimed id p → IsClaimed id (plic_sample lines p)
unfolding plic_sample
IsClaimed-sample id lines p c = c

IsClaimed-load :
    (id offset width : ℕ) {p : Plic}
    → IsValid p
    → IsClaimed id p
    → OnOk (λ (r : ℕ × Plic). IsClaimed id r.1) (plic_load offset width p)
unfolding plic_load
IsClaimed-load id offset width {p} v c = search (on_ok, grows) depth 16
  where
    grows : IsClaimed id (plic_claim (plic_best p) p)
    grows = ground (arith, test-claim (plic_best p) p id (plic_best_lt p) v.pending_word)

IsClaimed-store :
    (id offset width value : ℕ) {p : Plic}
    → IsValid p
    → IsClaimed id p
    → ¬ ((offset ≡ plic_claim_at) × (value ≡ id))
    → OnOk (IsClaimed id) (plic_store offset width value p)
unfolding plic_store
IsClaimed-store id offset width value {p} v c other = search (on_ok, write, completed) depth 16
  where
    write : IsClaimed id (
        if has (plic_wired / 2 ^ (offset / 4)) 1
        then record p { priority = set p.priority (offset / 4) (bit_and value 7) }
        else p)
    write = ground arith

    completed : (offset == plic_claim_at) ≡ true → IsClaimed id (plic_complete value p)
    completed h = ground (arith, test-plic_complete value p id v.claimed_word)

-- A claimed source stays claimed until it is completed.
Undone-IsClaimed :
    {id : ℕ} {p q : Plic} → Undone id p q → IsValid p → IsClaimed id p → IsValid q × IsClaimed id q
Undone-IsClaimed claimed_at v c = (v, c)
Undone-IsClaimed {id} (sampled {q} lines run) v c =
    let (v', c') = Undone-IsClaimed run v c in
    (plic_sample-IsValid lines v', IsClaimed-sample id lines q c')
Undone-IsClaimed {id} (loaded {q} offset width value run e) v c =
    let (v', c') = Undone-IsClaimed run v c in
    ((plic_load-IsValid offset width v').at _ e, (IsClaimed-load id offset width v' c').at _ e)
Undone-IsClaimed {id} (stored {q} offset width value run e other) v c =
    let (v', c') = Undone-IsClaimed run v c in
    (
      (plic_store-IsValid offset width value v').at _ e,
      (IsClaimed-store id offset width value v' c' other).at _ e,
    )

-- What a load of the claim register does.
claim_returns :
    {id : ℕ} (p : Plic) {q : Plic}
    → plic_load plic_claim_at 4 p ≡ acc_ok (id, q)
    → (id ≡ plic_best p) × (q ≡ plic_claim id p)
unfolding plic_load
claim_returns p e = ground arith

-- From a valid state, a load of the claim register that returns a nonzero source leaves it so
-- that, in every run of samplings, loads and stores from there in which no word equal to the
-- source is stored to the claim register, the source is not pending and `plic_best` does not
-- return it again, whatever its line does.
pub claimed_once :
    {id : ℕ} {p q r : Plic}
    → IsValid p
    → id ≢ 0
    → plic_load plic_claim_at 4 p ≡ acc_ok (id, q)
    → Undone id q r
    → (test r.pending id ≡ false) × (plic_best r ≢ id)
claimed_once {id} {p} {q} {r} v nonzero e run =
    let (best, after) = claim_returns p e in
    let low : id < 32 = rw best (plic_best_lt p) in
    let valid : IsValid q = rw after (plic_claim-IsValid id low v) in
    let c : IsClaimed id q = rw after (ground (arith, test-claim id p id low v.pending_word)) in
    let (v', c') = Undone-IsClaimed run valid c in
    (v'.apart id c', λ same. ground (arith, plic_best-IsRequest r, v'.apart id c'))

completion_stores :
    (id : ℕ) (p : Plic) {q : Plic}
    → plic_store plic_claim_at 4 id p ≡ acc_ok q
    → q ≡ plic_complete id p
unfolding plic_store
completion_stores id p e = ground arith

-- From a valid state, a store to the claim register of an enabled source whose line is high ends
-- the source's claim, and the next sampling makes it pending.
pub complete-sample :
    (id lines : ℕ) {p q : Plic}
    → IsValid p
    → test p.enable id ≡ true
    → test lines id ≡ true
    → plic_store plic_claim_at 4 id p ≡ acc_ok q
    → (test q.claimed id ≡ false) × (test (plic_sample lines q).pending id ≡ true)
complete-sample id lines {p} {q} v on high e =
    let after = completion_stores id p e in
    let valid : IsValid q = rw after (plic_complete-IsValid id v) in
    let low : ltb id plic_sources ≡ true =
      ground (arith, v.enable_wired id, test_past 32 plic_wired id) in
    let done : test q.claimed id ≡ false =
      rw after (ground (arith, test-plic_complete id p id v.claimed_word)) in
    (done, ground (arith, test-sample lines q id valid.claimed_word, v.enable_wired id))
