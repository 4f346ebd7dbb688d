-- ===== src/Spec/IntervalPolicy.antt =====
-- manager/pkg/specsyncer/db2transport/intervalpolicy/exponential_backoff_policy.go. Durations are
-- in nanoseconds. github.com/cenkalti/backoff is a parameter.
use multicluster_global_hub.Base.{
  ℕ, zero, suc, ◌≡◌, refl, true, false, ◌+◌, ◌*◌, ◌<◌, ◌≤◌, if◌then◌else◌, eqb, leb, arith, sym, ap,
  ◌∙◌, ◌/◌, ◌%◌, subst₂, subst, Bool-cases, inl, inr,
}

abbrev pub max_interval : ℕ
max_interval = 60000000000

abbrev evaluations_before_backoff : ℕ
evaluations_before_backoff = 3

-- What the policy uses of `backoff.ExponentialBackOff` with multiplier 2, the maximal interval
-- above, no randomization and no limit to the elapsed time: the interval that comes next, which
-- `NextBackOff` returns and doubles up to the maximum, and which `Reset` sets back.
pub record BackoffApi : Type 1 where
  pub Backoff : Type 0
  pub new_backoff : ℕ → Backoff
  pub reset : Backoff → Backoff
  pub next_backoff : Backoff → ℕ × Backoff
  pub initial : Backoff → ℕ
  pub current : Backoff → ℕ
  pub initial-new_backoff : (i : ℕ) → initial (new_backoff i) ≡ i
  pub initial-reset : (b : Backoff) → initial (reset b) ≡ initial b
  pub current-reset : (b : Backoff) → current (reset b) ≡ initial b
  pub initial-next_backoff : (b : Backoff) → initial (next_backoff b).1 ≡ initial b
  pub next_backoff_value : (b : Backoff) → (next_backoff b).0 ≡ current b
  pub current-next_backoff :
      (b : Backoff)
      → current (next_backoff b).1
        ≡ (if leb max_interval (current b * 2) then max_interval else current b * 2)

module _ (api : BackoffApi) where
  -- `exponentialBackoffPolicy`
  pub record BackoffPolicy : Type 0 where
    pub backoff : api.Backoff
    pub interval : ℕ
    pub evaluations : ℕ

  -- `Reset`
  unfoldable pub reset_policy : BackoffPolicy → BackoffPolicy
  reset_policy p =
      let (i, b) = api.next_backoff (api.reset p.backoff) in
      record { backoff = b; interval = i; evaluations = 0 }

  -- `NewExponentialBackoffPolicy`
  unfoldable pub new_policy : ℕ → BackoffPolicy
  new_policy interval =
      let (i, b) = api.next_backoff (api.reset (api.new_backoff interval)) in
      record { backoff = b; interval = i; evaluations = 0 }

  -- `Evaluate`
  unfoldable pub evaluate : BackoffPolicy → BackoffPolicy
  evaluate p =
      let (i, b) = api.next_backoff p.backoff in
      if eqb (suc p.evaluations) evaluations_before_backoff
      then record { backoff = b; interval = i; evaluations = 0 }
      else record p { evaluations = suc p.evaluations }

  -- `GetInterval`
  unfoldable pub get_interval : BackoffPolicy → ℕ
  get_interval p = p.interval

  abbrev pub evaluate_times : ℕ → BackoffPolicy → BackoffPolicy
  evaluate_times zero p = p
  evaluate_times (suc n) p = evaluate_times n (evaluate p)

abbrev pub doubled : ℕ → ℕ → ℕ
doubled i zero = i
doubled i (suc k) = doubled i k * 2

abbrev pub capped : ℕ → ℕ
capped n = if leb max_interval n then max_interval else n

module _ (api : BackoffApi) where
  -- A policy that has backed off `k` times and was evaluated `r` times since.
  record IsAt (i k r : ℕ) (p : BackoffPolicy api) : Type 0 where
    interval : p.interval ≡ capped (doubled i k)
    evaluations : p.evaluations ≡ r
    current : api.current p.backoff ≡ capped (doubled i (suc k))
    initial : api.initial p.backoff ≡ i

  restarted-IsAt :
      (b : api.Backoff) (i : ℕ)
      → api.initial b ≡ i
      → i ≤ max_interval
      → IsAt i 0 0 (record {
        backoff = (api.next_backoff (api.reset b)).1;
        interval = (api.next_backoff (api.reset b)).0;
        evaluations = 0;
      })
  restarted-IsAt b i e h =
      let start : api.current (api.reset b) ≡ i = api.current-reset b ∙ e in
      record {
        interval = ground (arith, api.next_backoff_value (api.reset b), start, h);
        evaluations = refl;
        current = ground (arith, api.current-next_backoff (api.reset b), start);
        initial = api.initial-next_backoff (api.reset b) ∙ api.initial-reset b ∙ e;
      }

  capped_twice :
      (n : ℕ)
      → (if leb max_interval (capped n * 2) then max_interval else capped n * 2) ≡ capped (n * 2)
  capped_twice n = ground arith

  evaluate_counts :
      (i k r : ℕ) (p : BackoffPolicy api)
      → suc r < 3
      → IsAt i k r p
      → IsAt i k (suc r) (evaluate api p)
  unfolding evaluate
  evaluate_counts i k r p h v =
      let more : eqb (suc p.evaluations) 3 ≡ false = ground (arith, v.evaluations, h) in
      rw more (record {
        interval = v.interval;
        evaluations = ap suc v.evaluations;
        current = v.current;
        initial = v.initial;
      })

  evaluate_backs_off :
      (i k : ℕ) (p : BackoffPolicy api) → IsAt i k 2 p → IsAt i (suc k) 0 (evaluate api p)
  unfolding evaluate
  evaluate_backs_off i k p v =
      let enough : eqb (suc p.evaluations) 3 ≡ true = ground (arith, v.evaluations) in
      rw enough (record {
        interval = api.next_backoff_value p.backoff ∙ v.current;
        evaluations = refl;
        current =
            api.current-next_backoff p.backoff ∙ (rw v.current (capped_twice (doubled i (suc k))));
        initial = api.initial-next_backoff p.backoff ∙ v.initial;
      })

  evaluate_times-IsAt :
      (i k r n : ℕ) (p : BackoffPolicy api)
      → r < 3
      → IsAt i k r p
      → IsAt i (k + (r + n) / 3) ((r + n) % 3) (evaluate_times api n p)
  evaluate_times-IsAt i k r zero p h v =
      subst₂ (λ a b. IsAt i a b p) (omega (arith, h)) (omega (arith, h)) v
  evaluate_times-IsAt i k zero (suc n) p h v =
      subst₂ (λ a b. IsAt i a b (evaluate_times api n (evaluate api p))) (omega arith) (omega arith)
        (evaluate_times-IsAt i k 1 n (evaluate api p) (omega arith)
          (evaluate_counts i k 0 p (omega arith) v))
  evaluate_times-IsAt i k (suc zero) (suc n) p h v =
      subst₂ (λ a b. IsAt i a b (evaluate_times api n (evaluate api p))) (omega arith) (omega arith)
        (evaluate_times-IsAt i k 2 n (evaluate api p) (omega arith)
          (evaluate_counts i k 1 p (omega arith) v))
  evaluate_times-IsAt i k (suc (suc zero)) (suc n) p h v =
      subst₂ (λ a b. IsAt i a b (evaluate_times api n (evaluate api p))) (omega arith) (omega arith)
        (evaluate_times-IsAt i (suc k) 0 n (evaluate api p) (omega arith)
          (evaluate_backs_off i k p v))
  evaluate_times-IsAt i k (suc (suc (suc r))) (suc n) p h v = ground (arith, h)

  -- A policy as its callers reach it.
  pub data PolicyReaches (i : ℕ) : BackoffPolicy api → Type 0 where
    starts : PolicyReaches i (new_policy api i)
    evaluates : {p : BackoffPolicy api} → PolicyReaches i p → PolicyReaches i (evaluate api p)
    resets : {p : BackoffPolicy api} → PolicyReaches i p → PolicyReaches i (reset_policy api p)

  -- The interval after any number of evaluations of a new policy: the initial one, doubled for every
  -- three evaluations, and at most a minute.
  pub get_interval-new_policy :
      (i n : ℕ)
      → i ≤ max_interval
      → get_interval api (evaluate_times api n (new_policy api i)) ≡ capped (doubled i (n / 3))
  unfolding get_interval new_policy
  get_interval-new_policy i n h =
      subst (λ k. (evaluate_times api n (new_policy api i)).interval ≡ capped (doubled i k))
        (omega arith)
        (evaluate_times-IsAt i 0 0 n (new_policy api i) (omega arith)
          (restarted-IsAt (api.new_backoff i) i (api.initial-new_backoff i) h)).interval

  rest_initial :
      (i : ℕ) (p : BackoffPolicy api)
      → api.initial p.backoff ≡ i
      → api.initial (evaluate api p).backoff ≡ i
  unfolding evaluate
  rest_initial i p h = elim (Bool-cases (eqb (suc p.evaluations) 3)) [
    | inl e ↦ rw e (api.initial-next_backoff p.backoff ∙ h)
    | inr e ↦ rw e h
  ]

  PolicyReaches-initial :
      (i : ℕ) {p : BackoffPolicy api} → PolicyReaches i p → api.initial p.backoff ≡ i
  unfolding new_policy evaluate reset_policy
  PolicyReaches-initial i starts =
      api.initial-next_backoff _ ∙ api.initial-reset _ ∙ api.initial-new_backoff i
  PolicyReaches-initial i (evaluates {p} r) = rest_initial i p (PolicyReaches-initial i r)
  PolicyReaches-initial i (resets {p} r) =
      api.initial-next_backoff _ ∙ api.initial-reset _ ∙ PolicyReaches-initial i r

  -- `Reset` starts a policy over: however it was used before, its intervals are from then on those of
  -- a new policy.
  pub reset_policy_restarts :
      (i n : ℕ) (p : BackoffPolicy api)
      → i ≤ max_interval
      → PolicyReaches i p
      → get_interval api (evaluate_times api n (reset_policy api p))
        ≡ get_interval api (evaluate_times api n (new_policy api i))
  unfolding get_interval reset_policy
  reset_policy_restarts i n p h r =
      subst (λ k. (evaluate_times api n (reset_policy api p)).interval ≡ capped (doubled i k))
        (omega arith)
        (evaluate_times-IsAt i 0 0 n (reset_policy api p) (omega arith)
          (restarted-IsAt p.backoff i (PolicyReaches-initial i r) h)).interval
      ∙ sym (get_interval-new_policy i n h)
