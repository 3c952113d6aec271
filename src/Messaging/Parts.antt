-- ===== src/Messaging/Parts.antt =====
-- The text of a turn, the delivery mode, the enqueue and the events of core/message_router.py.
use eyot_ai.Prelude.{◌+◌, String, false, not, Option, none, some, if◌then◌else◌, filter}
use eyot_ai.Json.{Fields}
use eyot_ai.Text.{strip, join, is_empty}
use eyot_ai.Audit.{Event}
use eyot_ai.Models.{absent, several, single, one_or_none}
use eyot_ai.Inject.Rows.{InjectKind, DeliveryMode, soft_inject, wake}
use eyot_ai.Inject.Queue.{enqueue_inject}
use eyot_ai.Harness.State.{is_running, is_active_row}
use eyot_ai.Messaging.{
  Directive, Outside, World, MessageDeliveryResult, tldr_refused, Outcome, returned, raised,
}

-- `(general_text or "").strip()`
unfoldable pub general : Option String → String
general none = ""
general (some s) = strip s

-- `_turn_text_for_directive`
unfoldable pub turn_text_for_directive : Directive → Option String → String
unfolding general
turn_text_for_directive d general_text =
    let args = strip (join " " d.args) in
    if not (is_empty d.cmd)
    then (if not (is_empty (general general_text))
        then general general_text
        else if not (is_empty args)
        then args
        else d.cmd)
    else if not (is_empty args)
    then args
    else general general_text

-- `_delivery_mode_for_instance`; `none` is the exception of `scalar_one_or_none`
unfoldable pub delivery_mode_for_instance : String → World → Option DeliveryMode
delivery_mode_for_instance k w = elim (one_or_none (filter (is_active_row k) w.harness.states)) [
  | several ↦ none
  | absent ↦ some wake
  | single s ↦ some (if is_running s.loop_status then soft_inject else wake)
]

-- `enqueue_inject` in this state; a refused request draws no id
unfoldable pub enqueue :
    Outside → String → InjectKind → DeliveryMode → Fields → String → World → Outcome Unit
enqueue o k kind mode payload tldr w =
    let (e, s) =
      enqueue_inject o.now
        (record {
          id = o.uuid4 w.drawn;
          instance_id = k;
          kind = kind;
          delivery_mode = mode;
          payload = payload;
          tldr = some tldr;
        })
        (record { rows = w.injects; events = w.harness.events }) in
    elim e [
      | some e ↦ raised (tldr_refused e) w
      | none ↦ returned tt (record w {
        injects = s.rows;
        harness = record w.harness { events = s.events };
        drawn = w.drawn + 1;
      })
    ]

abbrev pub messaging_event : String → String → String → String → Fields → Event
messaging_event type from resource_type resource_id payload = record {
  event_type = type;
  actor_type = "membership";
  actor_id = some from;
  resource_type = some resource_type;
  resource_id = some resource_id;
  payload = payload;
}

-- an f-string's text of a nullable name
abbrev pub shown : Option String → String
shown none = "None"
shown (some s) = s

-- `target_entity or ""`
abbrev or_empty : Option String → String
or_empty none = ""
or_empty (some s) = s

-- what was not delivered
abbrev pub undelivered : Option String → String → Option String → MessageDeliveryResult
undelivered target reason instance_id = record {
  target_entity = or_empty target;
  delivered = false;
  reason = some reason;
  instance_id = instance_id;
  turn_id = none;
}

-- what follows an enqueue: its exception, or the result
abbrev pub conclude : MessageDeliveryResult → Outcome Unit → Outcome MessageDeliveryResult
conclude result (raised e w) = raised e w
conclude result (returned _ w) = returned result w
