-- ===== src/Harness/Supervisor.antt =====
-- The operations of `HarnessSupervisor` that the API calls (core/harness_supervisor.py).
pub mod Control
use eyot_ai.Prelude.{
  ℕ, String, Bool, true, false, ◌&&◌, Option, none, some, List, [], ◌∷◌, ◌++◌, if◌then◌else◌,
  is_none, find, update_first,
}
use eyot_ai.Json.{Fields, end, texts}
use eyot_ai.Audit.{
  Event, harness_paused, harness_resumed, harness_interrupted, harness_control_sent,
}
use eyot_ai.Boulder
use eyot_ai.Boulder.{Verdict, validate_boulder_snapshot}
use eyot_ai.Harness.State.{
  LoopStatus, running, paused, interrupted, is_running, InstanceLoopState, InstanceLoopMetrics,
  no_metrics, Registry, lookup, pop, store, Harness, is_active_row,
}
use eyot_ai.Harness.Breakers.{emit_plain, instance_event}

pub data SupervisorError : Type 0 where
  loop_state_not_found snapshot_invalid attribute_error : SupervisorError

-- What a method returns or raises, with the state that it leaves.
pub data Outcome (A : Type 0) : Type 0 where
  returned : A → Harness → Outcome A
  raised : SupervisorError → Harness → Outcome A

-- `InstanceLoopMetrics` of a row
abbrev pub row_metrics : InstanceLoopState → InstanceLoopMetrics
row_metrics s = record {
  continuation_count = s.continuation_count;
  token_estimate = s.total_token_estimate;
  wall_clock_started = s.wall_clock_started_at;
  last_checkpoint_at = s.last_checkpoint_at;
}

-- the rows that `rehydrate` and the idle check read
abbrev pub is_running_row : InstanceLoopState → Bool
is_running_row s = is_running s.loop_status && is_none s.deleted_at

-- the loop of `rehydrate`
unfoldable pub rehydrate_rows : List InstanceLoopState → Registry → Registry
rehydrate_rows [] r = r
rehydrate_rows (s ∷ states) r =
    rehydrate_rows states (if is_running_row s then store r s.instance_id (row_metrics s) else r)

unfoldable pub rehydrate : Harness → Harness
unfolding rehydrate_rows
rehydrate h = record h { registry = rehydrate_rows h.states h.registry }

-- `_get_state_or_404`: the row, if there is one
abbrev pub get_state : String → Harness → Option InstanceLoopState
get_state k h = find (is_active_row k) h.states

-- `_set_loop_status`
pub set_loop_status : ℕ → String → LoopStatus → String → Harness → Outcome InstanceLoopState
unfolding emit_plain
set_loop_status now k status type h = elim (get_state k h) [
  | none ↦ raised loop_state_not_found h
  | some s ↦
      returned (record s { loop_status = status })
        (emit_plain now (instance_event type k end) (record h {
          states =
              update_first (is_active_row k) (λ row. record row { loop_status = status }) h.states;
        }))
]

-- the rest of `handle_interrupt`, behind `_set_loop_status`
pub kill_and_drop : ℕ → String → Outcome InstanceLoopState → Outcome InstanceLoopState
kill_and_drop now k (raised e h) = raised e h
kill_and_drop now k (returned s h) =
    let sent =
      emit_plain now
        (instance_event harness_control_sent k
          (texts (("action", "kill") ∷ ("instance_id", k) ∷ [])))
        h in
    returned s (record sent { registry = pop sent.registry k })

unfoldable pub handle_interrupt : ℕ → String → Harness → Outcome InstanceLoopState
unfolding set_loop_status kill_and_drop
handle_interrupt now k h =
    kill_and_drop now k (set_loop_status now k interrupted harness_interrupted h)

unfoldable pub handle_pause : ℕ → String → Harness → Outcome InstanceLoopState
unfolding set_loop_status
handle_pause now k h = set_loop_status now k paused harness_paused h

unfoldable pub handle_resume : ℕ → String → Harness → Outcome InstanceLoopState
unfolding set_loop_status
handle_resume now k h = set_loop_status now k running harness_resumed h

-- `get_loop_status`
pub get_loop_status : String → Harness → InstanceLoopMetrics
get_loop_status k h = elim (lookup h.registry k) [ none ↦ no_metrics | some m ↦ m ]

-- `state.boulder_snapshot or {}`
abbrev snapshot_of : InstanceLoopState → Fields
snapshot_of s = elim s.boulder_snapshot [ none ↦ end | some d ↦ d ]

-- only the `TodoEnforcerError` is turned into a validation error
pub capture_snapshot : ℕ → String → Harness → Outcome (Fields × ℕ × ℕ)
unfolding get_loop_status
capture_snapshot now k h = elim (get_state k h) [
  | none ↦ raised loop_state_not_found h
  | some s ↦ elim (validate_boulder_snapshot (snapshot_of s)) [
    | Verdict.accepted ↦ returned (snapshot_of s, (get_loop_status k h).continuation_count, now) h
    | Verdict.attribute_error ↦ raised attribute_error h
    | _ ↦ raised snapshot_invalid h
  ]
]
