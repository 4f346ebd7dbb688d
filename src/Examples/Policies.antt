-- ===== src/Examples/Policies.antt =====
-- The hybrid sync manager and the interval policy at work.
use multicluster_global_hub.Base.{ℕ, ◌≡◌, refl, arith, ◌≤◌, if◌then◌else◌, leb, ◌*◌}
use multicluster_global_hub.Agent.HybridSync.{
  DeltaOps, HybridSyncManager, attempts, attempts_switch,
}
use multicluster_global_hub.Spec.IntervalPolicy.{
  BackoffApi, get_interval, evaluate_times, new_policy, reset_policy, capped, evaluate, doubled,
  reset_policy_restarts, get_interval-new_policy, evaluates, starts, max_interval,
}
use multicluster_global_hub.Conflation.Bundles.{complete_state_mode, delta_state_mode}

-- A delta bundle that counts its objects.
abbrev counted : DeltaOps ℕ
counted = record { reset = λ d. 0; sync_state = λ d. d }

abbrev in_delta : HybridSyncManager ℕ
in_delta = record {
  active_sync_mode = delta_state_mode;
  delta_bundle = 4;
  switch_factor = 3;
  sent_delta_count = 1;
}

attempts_switch_example :
    ((attempts counted 2 in_delta).active_sync_mode ≡ complete_state_mode)
    × ((n : ℕ) → n ≤ 1 → (attempts counted n in_delta).active_sync_mode ≡ delta_state_mode)
attempts_switch_example = attempts_switch counted 1 in_delta refl refl

-- The initial and the current interval.
abbrev doubling : BackoffApi
doubling = record {
  Backoff = ℕ × ℕ;
  new_backoff = λ i. (i, i);
  reset = λ b. (b.0, b.0);
  next_backoff = λ b. (b.1, (b.0, if leb max_interval (b.1 * 2) then max_interval else b.1 * 2));
  initial = λ b. b.0;
  current = λ b. b.1;
  initial-new_backoff = λ i. refl;
  initial-reset = λ b. refl;
  current-reset = λ b. refl;
  initial-next_backoff = λ b. refl;
  next_backoff_value = λ b. refl;
  current-next_backoff = λ b. refl;
}

get_interval-new_policy_example :
    get_interval doubling (evaluate_times doubling 7 (new_policy doubling 5000000000))
    ≡ capped (doubled 5000000000 2)
get_interval-new_policy_example = get_interval-new_policy doubling 5000000000 7 (omega arith)

reset_policy_restarts_example :
    get_interval doubling (
      evaluate_times doubling 4
        (reset_policy doubling (evaluate doubling (new_policy doubling 5000000000))))
    ≡ get_interval doubling (evaluate_times doubling 4 (new_policy doubling 5000000000))
reset_policy_restarts_example =
    reset_policy_restarts doubling 5000000000 4 (evaluate doubling (new_policy doubling 5000000000))
      (omega arith) (evaluates starts)
