-- ===== src/Emulator/Plic/Choice.antt =====
-- Which source a claim returns.
use tiny_processors.Prelude.{
  ℕ, zero, suc, ◌+◌, ◌/◌, ◌^◌, ◌<◌, ◌≤◌, ◌≡◌, refl, arith, true, ◌&&◌, List, ltb, ◌!=◌, get_or, ◌⊎◌,
  inl, inr, Bool-cases,
}
use tiny_processors.Prelude.Bits.{test, test-and, has-shr, has, test-zero}
use tiny_processors.Emulator.Plic.{
  Plic, Best, best_round, best_loop, candidates, plic_best, plic_sources,
}

-- Of the candidates below `bound`, `s` holds the one of the highest priority above `threshold`,
-- the first of several; or `s` is as it began, and no candidate is above the threshold.
pub record IsBest (cands : ℕ) (priority : List ℕ) (threshold bound : ℕ) (s : Best) : Type 0 where
  pub at_least : threshold ≤ s.best_priority
  pub none_above :
      (id : ℕ) → 1 ≤ id → id < bound → test cands id ≡ true → get_or priority id 0 ≤ s.best_priority
  pub is_first :
      (id : ℕ)
      → 1 ≤ id
      → id < s.best
      → test cands id ≡ true
      → get_or priority id 0 < s.best_priority
  pub chosen :
      ((s.best ≡ 0) × (s.best_priority ≡ threshold))
      ⊎ ((1 ≤ s.best)
          × (s.best < bound)
          × (test cands s.best ≡ true)
          × (get_or priority s.best 0 ≡ s.best_priority)
          × (threshold < s.best_priority))

module _ (cands : ℕ) (priority : List ℕ) (threshold : ℕ) where
  best_round-IsBest :
      (id : ℕ) (s : Best)
      → 1 ≤ id
      → IsBest cands priority threshold id s
      → IsBest cands priority threshold (id + 1) (best_round cands priority id s)
  unfolding best_round
  best_round-IsBest id s pos h =
      elim (Bool-cases (has (cands / 2 ^ id) 1 && ltb s.best_priority (get_or priority id 0))) [
        | inl take ↦ rw take record {
          at_least = ground (arith, h.at_least);
          none_above = λ j lo hi c. ground (arith, h.none_above j);
          is_first = λ j lo hi c. ground (arith, h.none_above j);
          chosen = inr (ground (arith, has-shr cands id, h.at_least));
        }
        | inr leave ↦ rw leave record {
          at_least = h.at_least;
          none_above = λ j lo hi c. ground (arith, h.none_above j, has-shr cands id);
          is_first = h.is_first;
          chosen = ground (arith, h.chosen);
        }
      ]

  pub best_loop-IsBest :
      (left id bound : ℕ) (s : Best)
      → 1 ≤ id
      → id + left ≡ bound
      → IsBest cands priority threshold id s
      → IsBest cands priority threshold bound (best_loop cands priority left id s)
  unfolding best_loop
  best_loop-IsBest zero id bound s pos e h = let e' : id ≡ bound = omega arith in rw (← e') h
  best_loop-IsBest (suc left) id bound s pos e h =
      best_loop-IsBest left (id + 1) bound (best_round cands priority id s) (omega arith)
        (omega arith) (best_round-IsBest id s pos h)

module _ (p : Plic) where
  -- The source that `plic_best` finds, with its priority, is the best of the 31.
  plic_best-IsBest :
      (s : Best) × (plic_best p ≡ s.best) × IsBest (candidates p) p.priority p.threshold 32 s
  unfolding plic_best
  plic_best-IsBest = (
    best_loop (candidates p) p.priority 31 1 start,
    refl,
    best_loop-IsBest (candidates p) p.priority p.threshold 31 1 32 start (omega arith) (omega arith)
        record {
          at_least = omega arith;
          none_above = λ j lo hi c. absurd (omega arith);
          is_first = λ j lo hi c. absurd (omega arith);
          chosen = inl (refl, refl);
        },
  )
    where
      start : Best
      start = record { best = 0; best_priority = p.threshold }

-- Source `id` is pending, enabled and above the threshold.
pub record IsRequest (p : Plic) (id : ℕ) : Type 0 where
  pub not_zero : 1 ≤ id
  pub in_range : id < plic_sources
  pub is_pending : test p.pending id ≡ true
  pub is_enabled : test p.enable id ≡ true
  pub is_above : p.threshold < get_or p.priority id 0

test-candidates : (p : Plic) (k : ℕ) → test (candidates p) k ≡ (test p.pending k && test p.enable k)
test-candidates p k = elim (Bool-cases (p.enable != 0)) [
  | inl some_enabled ↦ rw some_enabled (test-and p.pending p.enable k)
  | inr none_enabled ↦
      let e : p.enable ≡ 0 = ground arith in rw (e, test-zero k) (ground (arith, test-zero k))
]

-- `plic_best` returns 0 or a source from 1 to 31 that is pending, enabled and above the
-- threshold.
pub plic_best-IsRequest : (p : Plic) → (plic_best p ≡ 0) ⊎ IsRequest p (plic_best p)
plic_best-IsRequest p = let (s, e, h) = plic_best-IsBest p in rw e (answer s h)
  where
    answer :
        (s : Best)
        → IsBest (candidates p) p.priority p.threshold 32 s
        → (s.best ≡ 0) ⊎ IsRequest p s.best
    answer s h = ground (arith, h.chosen, test-candidates p s.best)

-- If source `id` is pending, enabled and above the threshold, `plic_best` returns a source that
-- is pending, enabled and above the threshold, whose priority is at least that of `id`, and which
-- is at most `id` or of a strictly higher priority.
pub plic_best_lem :
    (p : Plic) (id : ℕ)
    → IsRequest p id
    → IsRequest p (plic_best p)
      × (get_or p.priority id 0 ≤ get_or p.priority (plic_best p) 0)
      × ((plic_best p ≤ id) ⊎ (get_or p.priority id 0 < get_or p.priority (plic_best p) 0))
plic_best_lem p id r = let (s, e, h) = plic_best-IsBest p in rw e (answer s h)
  where
    answer :
        (s : Best)
        → IsBest (candidates p) p.priority p.threshold 32 s
        → IsRequest p s.best
          × (get_or p.priority id 0 ≤ get_or p.priority s.best 0)
          × ((s.best ≤ id) ⊎ (get_or p.priority id 0 < get_or p.priority s.best 0))
    answer s h =
        let cand : test (candidates p) id ≡ true = ground (arith, test-candidates p id) in
        ground (
          arith,
          h.chosen,
          h.none_above id r.not_zero r.in_range cand,
          h.is_first id r.not_zero,
          test-candidates p s.best,
        )
