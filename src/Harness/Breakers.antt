-- ===== src/Harness/Breakers.antt =====
-- core/harness_breakers.py and `_check_breakers` of core/harness_supervisor.py.
-- The session that `trip_breaker` opens is taken to commit.
pub mod Order
pub mod Trips
use eyot_ai.Prelude.{
  ℕ, ◌+◌, ◌*◌, String, Bool, false, Option, none, some, List, [], ◌∷◌, ◌++◌, ◌==◌, leb,
  if◌then◌else◌, find,
}
use eyot_ai.Json.{Fields, texts}
use eyot_ai.Audit.{
  Event, harness_loop_started, harness_continuation_injected, harness_loop_stopped,
  harness_breaker_tripped, harness_control_sent,
}
use eyot_ai.Harness.State.{
  InstanceLoopState, InstanceLoopMetrics, no_metrics, Registry, lookup, pop, store, Harness,
  is_active_row,
}

pub data Reason : Type 0 where
  max_continuations token_budget wall_clock idle_timeout : Reason

abbrev pub reason_text : Reason → String
reason_text max_continuations = "max_continuations"
reason_text token_budget = "token_budget"
reason_text wall_clock = "wall_clock"
reason_text idle_timeout = "idle_timeout"

pub record BreakerConfig : Type 0 where
  pub max_continuations : ℕ
  pub max_wall_clock_seconds : ℕ
  pub max_token_estimate : ℕ
  pub idle_timeout_seconds : ℕ

-- `handle_loop_started`
pub handle_loop_started : ℕ → String → Registry → Registry
handle_loop_started now k r = store r k (record no_metrics { wall_clock_started = some now })

-- `handle_continuation_injected`
pub handle_continuation_injected : ℕ → String → Registry → Registry
handle_continuation_injected now k r = elim (lookup r k) [
  | none ↦ r
  | some m ↦ store r k (record m { last_checkpoint_at = some now })
]

-- `handle_loop_stopped`
pub handle_loop_stopped : String → Registry → Registry
handle_loop_stopped k r = pop r k

-- `_on_harness_event` on an event that is no checkpoint
pub on_plain_event : ℕ → Event → Registry → Registry
unfolding handle_loop_started handle_continuation_injected handle_loop_stopped
on_plain_event now e r = elim e.resource_id [
  | none ↦ r
  | some k ↦
      if e.event_type == harness_loop_started
      then handle_loop_started now k r
      else if e.event_type == harness_continuation_injected
      then handle_continuation_injected now k r
      else if e.event_type == harness_loop_stopped
      then handle_loop_stopped k r
      else r
]

-- `emit` of an event that is no checkpoint, with the supervisor as its handler
unfoldable pub emit_plain : ℕ → Event → Harness → Harness
unfolding on_plain_event
emit_plain now e h = record h {
  events = h.events ++ e ∷ [];
  registry = on_plain_event now e h.registry;
}

-- an event of the harness about one instance
abbrev pub instance_event : String → String → Fields → Event
instance_event type k payload = record {
  event_type = type;
  actor_type = "system";
  actor_id = none;
  resource_type = some "instance";
  resource_id = some k;
  payload = payload;
}

abbrev pub tripped_event : String → Reason → Event
tripped_event k why =
    instance_event harness_breaker_tripped k
      (texts (("reason", reason_text why) ∷ ("instance_id", k) ∷ []))

abbrev pub stopped_event : String → Reason → Event
stopped_event k why =
    instance_event harness_loop_stopped k
      (texts (("reason", reason_text why) ∷ ("instance_id", k) ∷ []))

abbrev pub kill_event : String → Reason → Event
kill_event k why =
    instance_event harness_control_sent k
      (texts (("action", "kill") ∷ ("instance_id", k) ∷ ("reason", reason_text why) ∷ []))

unfoldable pub trip_breaker : ℕ → String → Reason → Harness → Harness
unfolding emit_plain
trip_breaker now k why h =
    emit_plain now (kill_event k why)
      (emit_plain now (stopped_event k why) (emit_plain now (tripped_event k why) h))

unfoldable pub load_breaker_config : String → List InstanceLoopState → Option BreakerConfig
load_breaker_config k states = elim (find (is_active_row k) states) [
  | none ↦ none
  | some s ↦ some (record {
    max_continuations = s.max_continuations;
    max_wall_clock_seconds = s.max_wall_clock_seconds;
    max_token_estimate = s.max_token_estimate;
    idle_timeout_seconds = s.idle_timeout_seconds;
  })
]

-- `t is not None and (now - t).total_seconds() >= limit`, with the negative difference of a time
-- that lies ahead below every limit
abbrev pub reached : ℕ → Option ℕ → ℕ → Bool
reached now none limit = false
reached now (some t) limit = leb (t + limit * 1000000) now

unfoldable pub check_breakers :
    ℕ → String → InstanceLoopMetrics → BreakerConfig → Harness → Option Reason × Harness
check_breakers now k m config h =
    if leb config.max_continuations m.continuation_count
    then (some max_continuations, trip_breaker now k max_continuations h)
    else if leb config.max_token_estimate m.token_estimate
    then (some token_budget, trip_breaker now k token_budget h)
    else if reached now m.wall_clock_started config.max_wall_clock_seconds
    then (some wall_clock, trip_breaker now k wall_clock h)
    else if reached now m.last_checkpoint_at config.idle_timeout_seconds
    then (some idle_timeout, trip_breaker now k idle_timeout h)
    else (none, h)

-- the tail of `_check_breakers`: on a trip the registry entry is dropped
abbrev drop_on_trip : String → Option Reason × Harness → Option Reason × Harness
drop_on_trip k (none, h) = (none, h)
drop_on_trip k (some why, h) = (some why, record h { registry = pop h.registry k })

-- `HarnessSupervisor._check_breakers`
unfoldable pub check_instance : ℕ → String → Harness → Option Reason × Harness
check_instance now k h = elim (lookup h.registry k) [
  | none ↦ (none, h)
  | some m ↦ elim (load_breaker_config k h.states) [
    | none ↦ (none, h)
    | some config ↦ drop_on_trip k (check_breakers now k m config h)
  ]
]
