-- ===== src/Harness/Examples.antt =====
-- The supervisor at concrete states: tests, and the theorems where their hypotheses hold.
use eyot_ai.Prelude.{
  ℕ, ◌<◌, String, ◌≡◌, ◌↔◌, refl, inl, true, Option, none, some, List, [], ◌∷◌, ◌++◌, true, arith,
  if◌then◌else◌, ◌==◌,
}
use eyot_ai.Json.{Value, Fields, num, end, field}
use eyot_ai.Harness.State.{
  running, interrupted, InstanceLoopState, InstanceLoopMetrics, Harness, lookup,
}
use eyot_ai.Harness.Breakers.{
  Reason, max_continuations, BreakerConfig, check_breakers, check_instance, load_breaker_config,
  trip_breaker,
}
use eyot_ai.Harness.Breakers.Order.{Trips, rank, check_breakers-first}
use eyot_ai.Harness.Breakers.Trips.{trip_events, Checked, check_instance-Checked}
use eyot_ai.Harness.Handlers.{payload_tokens}
use eyot_ai.Harness.Handlers.Runaway.{run_checkpoints, run_checkpoints_trip, has_tripped}
use eyot_ai.Harness.Supervisor.{returned, get_state, handle_interrupt}
use eyot_ai.Harness.Supervisor.Control.{interrupted_event, kill_sent, interrupt_effect}
use eyot_ai.Harness.IdleCheck.{continuation_event, idle_check_handler}
use eyot_ai.Harness.IdleCheck.Stopped.{Adds, stopped_loop_injected}

-- a running row that allows two continuations and ten idle seconds
abbrev row : InstanceLoopState
row = record {
  instance_id = "a";
  loop_status = running;
  current_plan_ref = none;
  continuation_count = 0;
  total_token_estimate = 0;
  wall_clock_started_at = none;
  last_checkpoint_at = some 5;
  boulder_snapshot = none;
  max_continuations = 2;
  max_wall_clock_seconds = 3600;
  max_token_estimate = 100;
  idle_timeout_seconds = 10;
  deleted_at = none;
}

abbrev started : Harness
started = record { registry = []; states = row ∷ []; events = [] }

abbrev python_int : Value → Option ℕ
python_int (num n) = some n
python_int _ = none

abbrev two_checkpoints : List (ℕ × Fields)
two_checkpoints = (6, field "token_estimate" (num 7) end) ∷ (9, end) ∷ []

run_checkpoints_trip_example :
    has_tripped "a" (run_checkpoints python_int "a" two_checkpoints started) ≡ true
unfolding load_breaker_config payload_tokens
run_checkpoints_trip_example =
    run_checkpoints_trip python_int "a" two_checkpoints started
      (record {
        max_continuations = 2;
        max_wall_clock_seconds = 3600;
        max_token_estimate = 100;
        idle_timeout_seconds = 10;
      })
      refl ((7, refl), ((0, refl), tt)) (omega arith) (omega arith)

-- the registry entry of an instance that has used up its continuations
abbrev used_up : InstanceLoopMetrics
used_up = record {
  continuation_count = 2;
  token_estimate = 500;
  wall_clock_started = none;
  last_checkpoint_at = some 9;
}

abbrev limits : BreakerConfig
limits = record {
  max_continuations = 2;
  max_wall_clock_seconds = 3600;
  max_token_estimate = 100;
  idle_timeout_seconds = 10;
}

abbrev exhausted : Harness
exhausted = record { registry = ("a", used_up) ∷ []; states = row ∷ []; events = [] }

-- The token budget is used up too, and the continuations are reported.
check_breakers-first_example :
    ((why : Reason)
      → ((check_breakers 20 "a" used_up limits exhausted).0 ≡ some why) ↔ (
          Trips 20 used_up limits why
          × ((r : Reason) → rank r < rank why → ¬ Trips 20 used_up limits r)))
    × (((check_breakers 20 "a" used_up limits exhausted).0 ≡ none)
        ↔ ((r : Reason) → ¬ Trips 20 used_up limits r))
check_breakers-first_example = check_breakers-first 20 "a" used_up limits exhausted

exhausted_trips : (check_instance 20 "a" exhausted).0 ≡ some max_continuations
unfolding check_instance load_breaker_config check_breakers lookup trip_breaker
exhausted_trips = refl

check_instance-Checked_example : Checked "a" exhausted (check_instance 20 "a" exhausted)
check_instance-Checked_example = check_instance-Checked 20 "a" exhausted

interrupt_effect_example :
    (h' : Harness) × (handle_interrupt 7 "a" exhausted
      ≡ returned (record row { loop_status = interrupted }) h')
    × ((before after : List InstanceLoopState) × (exhausted.states ≡ before ++ row ∷ after)
        × (h'.states ≡ before ++ record row { loop_status = interrupted } ∷ after))
    × ((j : String)
        → get_state j h' ≡ (
            if "a" == j
            then some (record row { loop_status = interrupted })
            else get_state j exhausted))
    × ((j : String)
        → lookup h'.registry j ≡ (if "a" == j then none else lookup exhausted.registry j))
    × (h'.events ≡ interrupted_event "a" ∷ kill_sent "a" ∷ [])
interrupt_effect_example = interrupt_effect 7 "a" row exhausted refl

stopped_loop_injected_example :
    let stopped = (check_instance 20 "a" exhausted).1 in
    (stopped.states ≡ exhausted.states)
    × (stopped.events ≡ trip_events "a" max_continuations [])
    × Adds
        (continuation_event 20000000 5 row)
        stopped.events
        (idle_check_handler true 20000000 stopped).1.events
stopped_loop_injected_example =
    stopped_loop_injected 20 20000000 5 max_continuations row exhausted (inl refl) refl
      exhausted_trips refl (omega arith)
