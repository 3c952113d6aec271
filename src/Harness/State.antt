-- ===== src/Harness/State.antt =====
-- models/loop_state.py and the registry of core/harness_supervisor.py.
-- A time is a number of microseconds; `None` is `none`. The process and the database are one
-- record: the registry, the `instance_loop_states` rows and the audit log.
use eyot_ai.Prelude.{
  ℕ, String, Bool, true, false, ◌&&◌, Option, none, some, List, [], ◌∷◌, ◌==◌, ◌≡◌, arith, eq_iff,
  if◌then◌else◌, is_none,
}
use eyot_ai.Json.{Fields}
use eyot_ai.Audit.{Event}

pub data LoopStatus : Type 0 where
  idle running paused interrupted completed failed : LoopStatus

abbrev pub is_running : LoopStatus → Bool
is_running running = true
is_running _ = false

pub record InstanceLoopState : Type 0 where
  pub instance_id : String
  pub loop_status : LoopStatus
  pub current_plan_ref : Option String
  pub continuation_count : ℕ
  pub total_token_estimate : ℕ
  pub wall_clock_started_at : Option ℕ
  pub last_checkpoint_at : Option ℕ
  pub boulder_snapshot : Option Fields
  pub max_continuations : ℕ
  pub max_wall_clock_seconds : ℕ
  pub max_token_estimate : ℕ
  pub idle_timeout_seconds : ℕ
  pub deleted_at : Option ℕ

pub record InstanceLoopMetrics : Type 0 where
  pub continuation_count : ℕ
  pub token_estimate : ℕ
  pub wall_clock_started : Option ℕ
  pub last_checkpoint_at : Option ℕ

-- `InstanceLoopMetrics()`
abbrev pub no_metrics : InstanceLoopMetrics
no_metrics = record {
  continuation_count = 0;
  token_estimate = 0;
  wall_clock_started = none;
  last_checkpoint_at = none;
}

abbrev pub Registry : Type 0
Registry = List (String × InstanceLoopMetrics)

-- `self._registry.get(k)`
unfoldable pub lookup : Registry → String → Option InstanceLoopMetrics
lookup [] k = none
lookup ((j, m) ∷ r) k = if j == k then some m else lookup r k

-- `self._registry.pop(k, None)`
pub pop : Registry → String → Registry
pop [] k = []
pop ((j, m) ∷ r) k = let rest = pop r k in if j == k then rest else (j, m) ∷ rest

-- `self._registry[k] = m`
pub store : Registry → String → InstanceLoopMetrics → Registry
store r k m = (k, m) ∷ pop r k

pub lookup-pop :
    (r : Registry) (k j : String) → lookup (pop r k) j ≡ (if k == j then none else lookup r j)
unfolding lookup pop
lookup-pop [] k j = ground arith
lookup-pop ((i, m) ∷ r) k j = ground (arith, lookup-pop r k j, eq_iff i k, eq_iff i j, eq_iff k j)

pub lookup-store :
    (r : Registry) (k j : String) (m : InstanceLoopMetrics)
    → lookup (store r k m) j ≡ (if k == j then some m else lookup r j)
unfolding lookup store
lookup-store r k j m = ground (arith, lookup-pop r k j)

pub record Harness : Type 0 where
  pub registry : Registry
  pub states : List InstanceLoopState
  pub events : List Event

-- `instance_id == k AND deleted_at IS NULL`
abbrev pub is_active_row : String → InstanceLoopState → Bool
is_active_row k s = (s.instance_id == k) && is_none s.deleted_at
