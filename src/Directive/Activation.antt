-- ===== src/Directive/Activation.antt =====
-- core/activation.py and core/activation_consumer.py: a mention starts an idle instance.
use eyot_ai.Prelude.{String, Bool, true, false, none, some, [], ◌∷◌, ◌++◌, find, if◌then◌else◌}
use eyot_ai.Json.{text, field, end}
use eyot_ai.Audit.{messaging_activation_triggered}
use eyot_ai.Harness.State.{LoopStatus, idle, InstanceLoopState, Harness, is_active_row}
use eyot_ai.Harness.Supervisor
use eyot_ai.Harness.Supervisor.{handle_resume}
use eyot_ai.Messaging.{Directory, Outside, emit}
use eyot_ai.Directive.{Site, instance_of}

abbrev is_idle : LoopStatus → Bool
is_idle idle = true
is_idle _ = false

-- the defaults of `InstanceLoopState` of models/loop_state.py
abbrev pub idle_state : String → InstanceLoopState
idle_state k = record {
  instance_id = k;
  loop_status = idle;
  current_plan_ref = none;
  continuation_count = 0;
  total_token_estimate = 0;
  wall_clock_started_at = none;
  last_checkpoint_at = none;
  boulder_snapshot = none;
  max_continuations = 50;
  max_wall_clock_seconds = 3600;
  max_token_estimate = 100000;
  idle_timeout_seconds = 300;
  deleted_at = none;
}

-- the idle instance is resumed, and its runtime started, in a session that has come to the
-- harness `begun`; an exception is logged and rolled back
pub resume_idle : Outside → String → Harness → Site → Site
unfolding handle_resume
resume_idle o k begun s = elim (handle_resume o.now k begun) [
  | Supervisor.raised e h ↦ s
  | Supervisor.returned row h ↦ record s {
    world = record s.world { harness = h };
    runtimes = s.runtimes ++ k ∷ [];
  }
]

-- `on_activation_triggered`: a row that it adds stays only where the instance is resumed, and it is
pub on_activation_triggered : Directory → Outside → String → String → Site → Site
unfolding resume_idle
on_activation_triggered t o entity_id workspace_id s = elim (instance_of t entity_id workspace_id) [
  | none ↦ s
  | some i ↦ elim (find (is_active_row i.id) s.world.harness.states) [
    | none ↦
        let h = s.world.harness in
        let added = record h { states = h.states ++ idle_state i.id ∷ [] } in
        resume_idle o i.id added s
    | some state ↦ if is_idle state.loop_status then resume_idle o i.id s.world.harness s else s
  ]
]

-- `trigger_on_mention`: the event, and its handler
unfoldable pub trigger_on_mention : Directory → Outside → String → String → Site → Site
unfolding on_activation_triggered
trigger_on_mention t o entity_id workspace_id s =
    on_activation_triggered t o entity_id workspace_id (record s {
      world =
          emit o
            (record {
              event_type = messaging_activation_triggered;
              actor_type = "system";
              actor_id = none;
              resource_type = some "entity";
              resource_id = some entity_id;
              payload =
                  field "trigger" (text "on_mention")
                    (field "workspace_id" (text workspace_id) end);
            })
            s.world;
    })
