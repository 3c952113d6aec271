-- ===== src/Messaging/Examples.antt =====
-- A user, two agents and a stranger in one workspace: tests, and the routing theorems there.
use eyot_ai.Prelude.{
  ◌≤◌, String, ◌≡◌, refl, Bool, true, false, Option, none, some, List, [], ◌∷◌, ◌==◌, Bool-cases,
  inl, inr, subst, eq→path, map, length, filter, arith,
}
use eyot_ai.Models.{Entity, Instance, running, Membership}
use eyot_ai.Harness.State
use eyot_ai.Harness.State.{InstanceLoopState, Harness}
use eyot_ai.Inject.Rows.{soft_inject, notify}
use eyot_ai.Messaging.{
  Directory, Outside, World, MessageDeliveryResult, Outcome, returned, raised, state_of,
}
use eyot_ai.Text.{take_chars, strip, join, is_space, is_blank}
use eyot_ai.Topology.Passages.{find_active_passage_between}
use eyot_ai.Harness.Breakers.{emit_plain}
use eyot_ai.Inject.Queue.{enqueue_inject}
use eyot_ai.Inject.Tldr.{validate_tldr, report_prose_length, compute_prose_length}
use eyot_ai.Inject.Rows.{learning_events, DeliveryMode}
use eyot_ai.Messaging.Composer.{append_composer_message}
use eyot_ai.Messaging.Parts.{turn_text_for_directive}
use eyot_ai.Messaging.Clear.{starts_clear}
use eyot_ai.Messaging.Routed.{AllAccounted, Match, route_message-AllAccounted, route_message-Match}
use eyot_ai.Messaging.Total.{HasOneState, route_message-Returns}
use eyot_ai.Messaging.Sending.{Message}
use eyot_ai.Messaging.Router.{author_user_id, is_seat, has_slug, route_message}

abbrev pub fox : Entity
fox = record { id = "e"; namespace_id = "n"; slug = "fox"; deleted_at = none }

abbrev pub fox_at : String → Instance
fox_at k = record {
  id = k;
  entity_id = "e";
  workspace_id = "w";
  status = running;
  deleted_at = none;
}

abbrev pub seat : String → Option String → Option String → Membership
seat m user instance = record {
  id = m;
  workspace_id = "w";
  user_id = user;
  instance_id = instance;
  deleted_at = none;
}

-- a passage from the user to the first instance, none to the second
abbrev pub office : Directory
office = record {
  entities = fox ∷ [];
  instances = fox_at "i1" ∷ fox_at "i2" ∷ [];
  memberships =
      seat "user" (some "u") none ∷ seat "a" none (some "i1") ∷ seat "b" none (some "i2") ∷ [];
  passages =
      record {
        id = "p";
        workspace_id = "w";
        from_membership_id = "a";
        to_membership_id = "user";
        is_active = true;
        deleted_at = none;
      }
      ∷ [];
  workspaces = record { id = "w"; namespace_id = "n"; deleted_at = none } ∷ [];
}

abbrev pub outside : Outside
outside = record { now = 1000; uuid4 = λ n. "id"; tunnel_takes = λ k. false }

abbrev pub loop_of : String → InstanceLoopState
loop_of k = record {
  instance_id = k;
  loop_status = State.running;
  current_plan_ref = none;
  continuation_count = 0;
  total_token_estimate = 0;
  wall_clock_started_at = none;
  last_checkpoint_at = none;
  boulder_snapshot = none;
  max_continuations = 10;
  max_wall_clock_seconds = 10;
  max_token_estimate = 10;
  idle_timeout_seconds = 10;
  deleted_at = none;
}

abbrev pub quiet : World
quiet = record {
  harness = record { registry = []; states = loop_of "i1" ∷ []; events = [] };
  injects = [];
  messages = [];
  turns = [];
  tasks = [];
  drawn = 0;
}

abbrev hello : String → Message
hello from = record {
  from_membership_id = from;
  workspace_id = "w";
  directive = record {
    target_entity = some "fox";
    cmd = "";
    args = "hello" ∷ "there" ∷ [];
    raw_text = "@fox hello there";
  };
  general_text = none;
}

abbrev results_of : Outcome (List MessageDeliveryResult) → List MessageDeliveryResult
results_of (returned rs w) = rs
results_of (raised e w) = []

abbrev routed : World
routed = state_of (route_message office outside (hello "user") quiet)

-- the user's words are delivered to the neighbor, and go to the cerebellum for the other
user_results :
    map {B = Bool × Option String}
      (λ r. (r.delivered, r.reason))
      (results_of (route_message office outside (hello "user") quiet))
    ≡ (true, none) ∷ (false, some "routed_to_cerebellum") ∷ []
unfolding route_message find_active_passage_between emit_plain enqueue_inject validate_tldr
    report_prose_length compute_prose_length learning_events take_chars turn_text_for_directive
    strip join is_space is_blank append_composer_message
user_results = refl

user_queue :
    map {B = String × DeliveryMode} (λ r. (r.instance_id, r.delivery_mode)) routed.injects
    ≡ ("i1", soft_inject) ∷ ("i2", notify) ∷ []
unfolding route_message find_active_passage_between emit_plain enqueue_inject validate_tldr
    report_prose_length compute_prose_length learning_events take_chars turn_text_for_directive
    strip join is_space is_blank append_composer_message
user_queue = refl

user_events :
    map (λ e. e.event_type) routed.harness.events
    ≡ "messaging.message_sent" ∷ "harness.inject_requested" ∷ "harness.control_sent"
      ∷ "messaging.delivery_blocked" ∷ "harness.inject_requested" ∷ []
unfolding route_message find_active_passage_between emit_plain enqueue_inject validate_tldr
    report_prose_length compute_prose_length learning_events take_chars turn_text_for_directive
    strip join is_space is_blank append_composer_message
user_events = refl

user_transcript :
    map {B = String × String} (λ m. (m.role, m.status)) routed.messages
    ≡ ("user", "completed")
      ∷ ("assistant", "responding")
      ∷ ("user", "completed")
      ∷ ("assistant", "completed")
      ∷ []
unfolding route_message find_active_passage_between emit_plain enqueue_inject validate_tldr
    report_prose_length compute_prose_length learning_events take_chars turn_text_for_directive
    strip join is_space is_blank append_composer_message
user_transcript = refl

has_routed :
    route_message office outside (hello "user") quiet
    ≡ returned (results_of (route_message office outside (hello "user") quiet)) routed
unfolding route_message find_active_passage_between emit_plain enqueue_inject validate_tldr
    report_prose_length compute_prose_length learning_events take_chars turn_text_for_directive
    strip join is_space is_blank append_composer_message
has_routed = refl

route_message-AllAccounted_example :
    AllAccounted 1000 (results_of (route_message office outside (hello "user") quiet)) quiet routed
route_message-AllAccounted_example =
    route_message-AllAccounted office outside (hello "user") quiet routed
      (results_of (route_message office outside (hello "user") quiet)) has_routed

route_message-Match_example :
    Match office outside
      (hello "user")
      (author_user_id office outside (hello "user"))
      (fox_at "i1" ∷ fox_at "i2" ∷ [])
      (results_of (route_message office outside (hello "user") quiet))
route_message-Match_example =
    route_message-Match office outside (hello "user") "fox" fox (fox_at "i1") (fox_at "i2" ∷ [])
      quiet routed (results_of (route_message office outside (hello "user") quiet)) refl refl refl
      has_routed

-- the indexes of the example's tables
one_seat :
    (k : String) → length (filter (is_seat office outside (hello "user") k) office.memberships) ≤ 1
one_seat k = elim (Bool-cases ("i1" == k)) [
  | inl e ↦
      subst (λ j. length (filter (is_seat office outside (hello "user") j) office.memberships) ≤ 1)
        (eq→path "i1" k e) (omega arith)
  | inr e ↦ ground arith
]

no_space : starts_clear "" ≡ true
unfolding starts_clear
no_space = refl

one_state : HasOneState quiet
one_state k = ground arith

one_fox :
    (slug : String)
    → length (filter (has_slug office outside (hello "user") slug) office.entities) ≤ 1
one_fox slug = ground arith

route_message-Returns_example :
    (rs : List MessageDeliveryResult) × (w : World) × (route_message office outside
        (hello "user")
        quiet
      ≡ returned rs w)
route_message-Returns_example =
    route_message-Returns office outside (hello "user") no_space one_seat quiet one_state
      (λ slug target. one_fox slug)
