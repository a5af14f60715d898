-- ===== src/Emulator/Plic/Tests.antt =====
-- The interrupt controller on concrete states.
use tiny_processors.Prelude.{
  ◌≡◌, ◌≢◌, ◌⊎◌, ◌*◌, ◌<◌, ◌≤◌, true, false, refl, arith, set, replicate, get_or,
}
use tiny_processors.Prelude.Bits.{test}
use tiny_processors.Emulator.Access.{acc_ok}
use tiny_processors.Emulator.Plic.{
  Plic, plic_reset, plic_sample, plic_load, plic_store, plic_best, plic_claim_at, plic_enable_at,
  plic_sources, plic_claim, best_loop, best_round, plic_complete,
}
use tiny_processors.Emulator.Plic.Choice.{IsRequest, plic_best_lem}
use tiny_processors.Emulator.Plic.Gateway.{IsValid}
use tiny_processors.Emulator.Plic.Runs.{
  PlicReach, here, next, sample, load, store, PlicReach-IsValid, claimed_at, sampled, claimed_once,
  complete-sample,
}

-- The input device has priority 3 and virtio 5; both are enabled.
abbrev ready : Plic
ready = record plic_reset {
  priority = set (set (replicate plic_sources 0) 12 3) 1 5;
  enable = 0x1002;
}

-- Both lines are sampled.
abbrev asking : Plic
asking = record ready { pending = 0x1002 }

-- Virtio is claimed.
abbrev served : Plic
served = record asking { claimed = 2; pending = 0x1000 }

asking-reached : PlicReach plic_reset asking
unfolding plic_store plic_reset plic_sample
asking-reached =
    next
      (next (next (next here (store (4 * 12) 4 3 refl)) (store (4 * 1) 4 5 refl))
        (store plic_enable_at 4 0x1002 refl))
      (sample 0x1002 refl)

asking-loads : plic_load plic_claim_at 4 asking ≡ acc_ok (1, served)
unfolding plic_load plic_best plic_claim plic_reset best_loop best_round
asking-loads = refl

virtio_asks : IsRequest asking 1
unfolding plic_reset test
virtio_asks = record {
  not_zero = omega arith;
  in_range = omega arith;
  is_pending = refl;
  is_enabled = refl;
  is_above = omega arith;
}

input_waits : plic_best (plic_sample 0x1002 served) ≡ 12
unfolding plic_best plic_sample plic_reset best_loop best_round
input_waits = refl

PlicReach-IsValid_example : IsValid asking
PlicReach-IsValid_example = PlicReach-IsValid asking-reached

claimed_once_example :
    (test (plic_sample 0x1002 served).pending 1 ≡ false)
    × (plic_best (plic_sample 0x1002 served) ≢ 1)
claimed_once_example =
    claimed_once (PlicReach-IsValid asking-reached) (omega arith) asking-loads
      (sampled 0x1002 claimed_at)

plic_best_lem_example :
    IsRequest asking (plic_best asking)
    × (get_or asking.priority 1 0 ≤ get_or asking.priority (plic_best asking) 0)
    × ((plic_best asking ≤ 1)
        ⊎ (get_or asking.priority 1 0 < get_or asking.priority (plic_best asking) 0))
plic_best_lem_example = plic_best_lem asking 1 virtio_asks

abbrev completed : Plic
completed = record served { claimed = 0 }

served-reached : PlicReach plic_reset served
served-reached = next asking-reached (load plic_claim_at 4 1 asking-loads)

served_completes : plic_store plic_claim_at 4 1 served ≡ acc_ok (record served { claimed = 0 })
unfolding plic_store plic_complete plic_reset
served_completes = refl

virtio_is_enabled : test served.enable 1 ≡ true
unfolding test
virtio_is_enabled = refl

virtio_high : test 2 1 ≡ true
unfolding test
virtio_high = refl

complete-sample_example :
    (test completed.claimed 1 ≡ false) × (test (plic_sample 2 completed).pending 1 ≡ true)
complete-sample_example =
    complete-sample 1 2 (PlicReach-IsValid served-reached) virtio_is_enabled virtio_high
      served_completes
