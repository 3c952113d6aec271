-- ===== src/Directive/Control.antt =====
-- The three ways of a directive (core/directive_router.py, core/preset_registry.py).
use eyot_ai.Prelude.{
  String, Bool, Option, none, some, List, [], ◌∷◌, ◌==◌, find, if◌then◌else◌, contains, map, length,
}
use eyot_ai.Json.{text, num, items, arr, field, end}
use eyot_ai.Audit.{Event, learning_distillation_completed}
use eyot_ai.Models.{Entity}
use eyot_ai.Harness.State.{Harness}
use eyot_ai.Harness.Supervisor
use eyot_ai.Harness.Supervisor.{SupervisorError, handle_interrupt, handle_pause, handle_resume}
use eyot_ai.Messaging.{Directory, Outside, Directive, emit, supervisor_refused, multiple_results}
use eyot_ai.Directive.{
  Archive, Site, DirectiveResult, echo, Answer, answered, aborted, entity_of, instance_of,
}
use eyot_ai.Directive.Distill.{distill_memory_candidates, upsert_all}

-- `CONTROL_COMMANDS` and `LEARNING_COMMANDS`
abbrev pub is_control_command : String → Bool
is_control_command = contains ("/interrupt" ∷ "/pause" ∷ "/resume" ∷ "/status" ∷ "/snapshot" ∷ [])

abbrev pub is_learning_command : String → Bool
is_learning_command = contains ("/distill" ∷ "/consolidate" ∷ "/reflect" ∷ [])

-- the error, if there is one, and the state
pub outcome_of : {A : Type 0} → Supervisor.Outcome A → Option SupervisorError × Harness
outcome_of (Supervisor.raised e h) = (some e, h)
outcome_of (Supervisor.returned a h) = (none, h)

-- the supervisor's action of a control command; `/status` and `/snapshot` have none here
pub control_action : Outside → String → String → Harness → Option SupervisorError × Harness
unfolding handle_interrupt handle_pause handle_resume outcome_of
control_action o cmd k h =
    if cmd == "/interrupt"
    then outcome_of (handle_interrupt o.now k h)
    else if cmd == "/pause"
    then outcome_of (handle_pause o.now k h)
    else if cmd == "/resume"
    then outcome_of (handle_resume o.now k h)
    else (none, h)

-- the action on the instance, and the answer
unfoldable pub control_instance : Outside → Directive → String → Site → Answer DirectiveResult
unfolding control_action
control_instance o d k s =
    let (error, h) = control_action o d.cmd k s.world.harness in
    let left = record s { world = record s.world { harness = h } } in
    elim error [ none ↦ answered (echo d) left | some e ↦ aborted (supervisor_refused e) left ]

-- `_route_control_directive`
unfoldable pub route_control_directive :
    Directory → Outside → String → Directive → Site → Answer DirectiveResult
unfolding control_instance
route_control_directive t o workspace_id d s = elim d.target_entity [
  | none ↦ answered (echo d) s
  | some slug ↦ elim (entity_of t slug) [
    | none ↦ answered (echo d) s
    | some e ↦ elim (instance_of t e.id workspace_id) [
      | none ↦ answered (echo d) s
      | some i ↦ control_instance o d i.id s
    ]
  ]
]

-- the event of a distillation
abbrev pub distilled_event : String → Entity → List (String × String) → Event
distilled_event from_user_id e created = record {
  event_type = learning_distillation_completed;
  actor_type = "user";
  actor_id = some from_user_id;
  resource_type = some "entity";
  resource_id = some e.id;
  payload = field "entity_id" (text e.id) (
      field "source_entity_slug" (text e.slug) (
        field "capability_names" (arr (items (map (λ c. c.0) created))) (
          field "capability_count" (num (length created))
            (field "engine_used" (text "heuristic") end))));
}

-- the organization of the entity's namespace
abbrev pub org_of : Archive → Entity → Option String
org_of a e = elim (find (λ n. n.id == e.namespace_id) a.namespaces) [
  | none ↦ none
  | some n ↦ some n.org_id
]

-- `_route_learning_directive`
unfoldable pub route_learning_directive :
    (String → String)
    → Directory
    → Archive
    → Outside
    → String
    → Directive
    → Site
    → Answer DirectiveResult
unfolding distill_memory_candidates upsert_all
route_learning_directive lower t a o from_user_id d s = elim d.target_entity [
  | none ↦ answered (echo d) s
  | some slug ↦ elim (entity_of t slug) [
    | none ↦ answered (echo d) s
    | some e ↦ elim (distill_memory_candidates lower e.id a.memories) [
      | [] ↦ answered (echo d) s
      | c ∷ candidates ↦ elim (upsert_all (org_of a e) e.slug (c ∷ candidates) s.market) [
        | none ↦ aborted multiple_results s
        | some (created, market) ↦
            answered (record (echo d) { created_capabilities = created })
              (record s {
                market = market;
                world = emit o (distilled_event from_user_id e created) s.world;
              })
      ]
    ]
  ]
]
