-- ===== src/Harness/Breakers/Order.antt =====
-- Which breaker `check_breakers` reports (core/harness_breakers.py).
use eyot_ai.Prelude.{◌↔◌, ℕ, ◌+◌, ◌*◌, ◌≤◌, ◌<◌, String, ◌≡◌, none, some, arith}
use eyot_ai.Harness.State.{InstanceLoopMetrics, Harness}
use eyot_ai.Harness.Breakers.{
  Reason, max_continuations, token_budget, wall_clock, idle_timeout, BreakerConfig, check_breakers,
}

-- A limit is reached.
abbrev pub Trips : ℕ → InstanceLoopMetrics → BreakerConfig → Reason → Type 0
Trips now m c max_continuations = c.max_continuations ≤ m.continuation_count
Trips now m c token_budget = c.max_token_estimate ≤ m.token_estimate
Trips now m c wall_clock =
    (t : ℕ) × (m.wall_clock_started ≡ some t) × (t + c.max_wall_clock_seconds * 1000000 ≤ now)
Trips now m c idle_timeout =
    (t : ℕ) × (m.last_checkpoint_at ≡ some t) × (t + c.idle_timeout_seconds * 1000000 ≤ now)

-- The order of the checks.
abbrev pub rank : Reason → ℕ
rank max_continuations = 0
rank token_budget = 1
rank wall_clock = 2
rank idle_timeout = 3

module _ (now : ℕ) (k : String) (m : InstanceLoopMetrics) (c : BreakerConfig) (h : Harness) where
  reported_Trips : (why : Reason) → (check_breakers now k m c h).0 ≡ some why → Trips now m c why
  unfolding check_breakers
  reported_Trips max_continuations e = ground arith
  reported_Trips token_budget e = ground arith
  reported_Trips wall_clock e = ground arith
  reported_Trips idle_timeout e = ground arith

  reported_first :
      (why r : Reason)
      → (check_breakers now k m c h).0 ≡ some why
      → rank r < rank why
      → ¬ Trips now m c r
  unfolding check_breakers
  reported_first why max_continuations e lt t = ground arith
  reported_first why token_budget e lt t = ground arith
  reported_first why wall_clock e lt t = ground arith
  reported_first why idle_timeout e lt t = ground arith

  unreported : (r : Reason) → (check_breakers now k m c h).0 ≡ none → ¬ Trips now m c r
  unfolding check_breakers
  unreported max_continuations e t = ground arith
  unreported token_budget e t = ground arith
  unreported wall_clock e t = ground arith
  unreported idle_timeout e t = ground arith

  first_reported :
      (why : Reason)
      → Trips now m c why
      → ((r : Reason) → rank r < rank why → ¬ Trips now m c r)
      → (check_breakers now k m c h).0 ≡ some why
  unfolding check_breakers
  first_reported max_continuations t f = ground arith
  first_reported token_budget t f = ground (arith, f max_continuations)
  first_reported wall_clock t f = ground (arith, f max_continuations, f token_budget)
  first_reported idle_timeout t f =
      ground (arith, f max_continuations, f token_budget, f wall_clock)

  none_reported : ((r : Reason) → ¬ Trips now m c r) → (check_breakers now k m c h).0 ≡ none
  unfolding check_breakers
  none_reported f =
      ground (arith, f max_continuations, f token_budget, f wall_clock, f idle_timeout)

  -- `check_breakers` reports a reason exactly when its limit is reached and no limit that is checked
  -- before it is, in the order max_continuations, token_budget, wall_clock, idle_timeout; and it
  -- reports none exactly when no limit is reached.
  pub check_breakers-first :
      ((why : Reason)
        → ((check_breakers now k m c h).0 ≡ some why)
          ↔ (Trips now m c why × ((r : Reason) → rank r < rank why → ¬ Trips now m c r)))
      × (((check_breakers now k m c h).0 ≡ none) ↔ ((r : Reason) → ¬ Trips now m c r))
  check_breakers-first = (
    λ why.
        (λ e. (reported_Trips why e, λ r. reported_first why r e), λ t. first_reported why t.0 t.1),
    (λ e r. unreported r e, none_reported),
  )
