-- ===== src/Agent/HybridSync.antt =====
-- agent/pkg/status/controller/generic/hybrid_sync_manager.go: a complete bundle and a delta bundle
-- of which one is sent at a time. The lock makes each callback one step.
use multicluster_global_hub.Base.{
  ℕ, zero, suc, ◌≡◌, Bool, true, false, ◌&&◌, not, List, [], ◌∷◌, ◌+◌, ◌<◌, ◌≤◌, if◌then◌else◌, eqb,
  leb, arith, ◌||◌,
}
use multicluster_global_hub.Conflation.Bundles.{
  BundleSyncMode, complete_state_mode, delta_state_mode,
}

-- What the manager asks of the delta bundle (agent/pkg/status/bundle, `DeltaStateBundle`).
pub record DeltaOps (D : Type 0) : Type 0 where
  pub reset : D → D
  pub sync_state : D → D

-- `hybridSyncManager`
pub record HybridSyncManager (D : Type 0) : Type 0 where
  pub active_sync_mode : BundleSyncMode
  pub delta_bundle : D
  pub switch_factor : ℕ
  pub sent_delta_count : ℕ

pub data DeliveryEvent : Type 0 where
  attempt success failure : DeliveryEvent

abbrev mode_eq : BundleSyncMode → BundleSyncMode → Bool
mode_eq complete_state_mode complete_state_mode = true
mode_eq delta_state_mode delta_state_mode = true
mode_eq _ _ = false

-- `NewHybridSyncManager`
unfoldable pub new_manager : {D : Type 0} → D → ℕ → HybridSyncManager D
new_manager d factor = record {
  active_sync_mode = complete_state_mode;
  delta_bundle = d;
  switch_factor = factor;
  sent_delta_count = 0;
}

-- The predicate of an entry, given what its own predicate said.
unfoldable pub entry_predicate : {D : Type 0} → BundleSyncMode → Bool → HybridSyncManager D → Bool
entry_predicate mode original s = mode_eq s.active_sync_mode mode && original

-- `isEnabled`
unfoldable pub is_enabled : {D : Type 0} → Bool → HybridSyncManager D → Bool
is_enabled supports_delta s = not (leb s.switch_factor 0 || not supports_delta)

module _ {D : Type 0} (ops : DeltaOps D) where
  unfoldable pub switch_to_complete : HybridSyncManager D → HybridSyncManager D
  switch_to_complete s = record s { active_sync_mode = complete_state_mode }

  unfoldable pub switch_to_delta : HybridSyncManager D → HybridSyncManager D
  switch_to_delta s = record s {
    active_sync_mode = delta_state_mode;
    sent_delta_count = 0;
    delta_bundle = ops.sync_state (ops.reset s.delta_bundle);
  }

  -- `handleTransportationAttempt`
  unfoldable pub handle_attempt : HybridSyncManager D → HybridSyncManager D
  unfolding switch_to_complete switch_to_delta
  handle_attempt s =
      if mode_eq s.active_sync_mode complete_state_mode
      then switch_to_delta s
      else if eqb (suc s.sent_delta_count) s.switch_factor
      then switch_to_complete (record s { sent_delta_count = suc s.sent_delta_count })
      else record s {
        sent_delta_count = suc s.sent_delta_count;
        delta_bundle = ops.reset s.delta_bundle;
      }

  -- `handleTransportationSuccess`
  unfoldable pub handle_success : HybridSyncManager D → HybridSyncManager D
  unfolding switch_to_delta
  handle_success s = if mode_eq s.active_sync_mode delta_state_mode then s else switch_to_delta s

  -- `handleTransportationFailure`
  unfoldable pub handle_delivery_failure : HybridSyncManager D → HybridSyncManager D
  unfolding switch_to_complete
  handle_delivery_failure s =
      if mode_eq s.active_sync_mode complete_state_mode then s else switch_to_complete s

  -- The callbacks that `setCallbacks` subscribes.
  unfoldable pub handle_event : DeliveryEvent → HybridSyncManager D → HybridSyncManager D
  unfolding handle_attempt handle_success handle_delivery_failure
  handle_event attempt s = handle_attempt s
  handle_event success s = handle_success s
  handle_event failure s = handle_delivery_failure s

  abbrev pub handle_events : List DeliveryEvent → HybridSyncManager D → HybridSyncManager D
  handle_events [] s = s
  handle_events (e ∷ es) s = handle_events es (handle_event e s)

  -- In delta mode fewer deltas were sent than the factor allows.
  abbrev IsWithin : HybridSyncManager D → Type 0
  IsWithin s = s.active_sync_mode ≡ delta_state_mode → s.sent_delta_count < s.switch_factor

  -- An attempt in delta mode that is not the last one.
  attempt_delta :
      (s : HybridSyncManager D)
      → s.active_sync_mode ≡ delta_state_mode
      → suc s.sent_delta_count < s.switch_factor
      → ((handle_event attempt s).active_sync_mode ≡ delta_state_mode)
        × ((handle_event attempt s).sent_delta_count ≡ suc s.sent_delta_count)
        × ((handle_event attempt s).switch_factor ≡ s.switch_factor)
  unfolding handle_event
  attempt_delta s m h = ground (arith, m, h)

  attempt_last :
      (s : HybridSyncManager D)
      → s.active_sync_mode ≡ delta_state_mode
      → suc s.sent_delta_count ≡ s.switch_factor
      → (handle_event attempt s).active_sync_mode ≡ complete_state_mode
  unfolding handle_event
  attempt_last s m h = ground (arith, m, h)

  abbrev pub attempts : ℕ → HybridSyncManager D → HybridSyncManager D
  attempts zero s = s
  attempts (suc n) s = attempts n (handle_event attempt s)

  none_left :
      (s : HybridSyncManager D) (n : ℕ)
      → s.active_sync_mode ≡ delta_state_mode
      → n ≤ 0
      → (attempts n s).active_sync_mode ≡ delta_state_mode
  none_left s zero m g = m
  none_left s (suc n) m g = ground (arith, g)

  still_delta :
      (left : ℕ) (s : HybridSyncManager D) (n : ℕ)
      → s.active_sync_mode ≡ delta_state_mode
      → ((k : ℕ)
          → k ≤ left
          → (attempts k (handle_event attempt s)).active_sync_mode ≡ delta_state_mode)
      → n ≤ suc left
      → (attempts n s).active_sync_mode ≡ delta_state_mode
  still_delta left s zero m before g = m
  still_delta left s (suc n) m before g = before n (omega (arith, g))

  -- A manager that sent fewer deltas than the factor stays in delta mode until it has attempted as
  -- many more as are left, and then returns to complete mode.
  pub attempts_switch :
      (left : ℕ) (s : HybridSyncManager D)
      → s.active_sync_mode ≡ delta_state_mode
      → s.sent_delta_count + suc left ≡ s.switch_factor
      → ((attempts (suc left) s).active_sync_mode ≡ complete_state_mode)
        × ((n : ℕ) → n ≤ left → (attempts n s).active_sync_mode ≡ delta_state_mode)
  attempts_switch zero s m h = (attempt_last s m (omega (arith, h)), λ n g. none_left s n m g)
  attempts_switch (suc left) s m h =
      let (mode, count, same) = attempt_delta s m (omega (arith, h)) in
      let (last, before) =
        attempts_switch left (handle_event attempt s) mode (omega (arith, count, same, h)) in
      (last, λ n g. still_delta left s n m before g)
