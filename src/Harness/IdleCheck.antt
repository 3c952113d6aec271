-- ===== src/Harness/IdleCheck.antt =====
-- The periodic idle check (core/continuation.py). The rows are read once, before the loop, and no
-- step of the loop writes them.
pub mod Injection
pub mod Rehydrate
pub mod Stopped
use eyot_ai.Prelude.{
  ◌-◌, ℕ, ◌+◌, ◌*◌, Bool, Option, none, some, List, [], ◌∷◌, ltb, if◌then◌else◌, filter,
}
use eyot_ai.Json.{end, field, text, seconds, null, Value}
use eyot_ai.Audit.{Event, harness_continuation_injected}
use eyot_ai.Harness.State.{InstanceLoopState, Harness}
use eyot_ai.Harness.Breakers.{Reason, emit_plain, instance_event, check_instance}
use eyot_ai.Harness.Supervisor.{is_running_row}

-- `(now - t).total_seconds() > limit`
abbrev pub overdue : ℕ → ℕ → ℕ → Bool
overdue now t limit = ltb (t + limit * 1000000) now

abbrev plan_ref : InstanceLoopState → Value
plan_ref s = elim s.current_plan_ref [ none ↦ null | some p ↦ text p ]

abbrev pub continuation_event : ℕ → ℕ → InstanceLoopState → Event
continuation_event now t s = instance_event harness_continuation_injected s.instance_id (
    field "instance_id" (text s.instance_id)
      (field "plan_ref" (plan_ref s) (field "idle_seconds" (seconds (now - t)) end)))

-- step 2 of the loop's body
pub inject_if_stale : ℕ → InstanceLoopState → Harness → Harness
inject_if_stale now s h = elim s.last_checkpoint_at [
  | none ↦ h
  | some t ↦
      if overdue now t s.idle_timeout_seconds
      then emit_plain now (continuation_event now t s) h
      else h
]

-- `continue` behind a trip, else step 2
abbrev pub after_check : ℕ → InstanceLoopState → Option Reason × Harness → Harness
after_check now s (some why, h) = h
after_check now s (none, h) = inject_if_stale now s h

-- the loop's body
pub idle_check_row : ℕ → InstanceLoopState → Harness → Harness
unfolding inject_if_stale
idle_check_row now s h = after_check now s (check_instance now s.instance_id h)

pub idle_check_rows : ℕ → List InstanceLoopState → Harness → Harness
unfolding idle_check_row
idle_check_rows now [] h = h
idle_check_rows now (s ∷ states) h = idle_check_rows now states (idle_check_row now s h)

-- `idle_check_handler` of a payload with or without a task queue, with the delay in seconds of the
-- call that it puts into the queue
pub idle_check_handler : Bool → ℕ → Harness → Option ℕ × Harness
unfolding idle_check_rows
idle_check_handler has_task_queue now h =
    if has_task_queue
    then (some 30, idle_check_rows now (filter is_running_row h.states) h)
    else (none, h)
