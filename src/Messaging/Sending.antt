-- ===== src/Messaging/Sending.antt =====
-- What core/message_router.py does for one recipient: deliver, hand to the cerebellum, or block.
use eyot_ai.Prelude.{String, true, not, Option, none, some, [], ◌∷◌, if◌then◌else◌, is_none}
use eyot_ai.Json.{Fields, text, opt_text, items, arr, end, field}
use eyot_ai.Text.{join, take_chars, is_empty}
use eyot_ai.Audit.{Event, messaging_delivery_blocked, messaging_message_sent}
use eyot_ai.Topology.Passages.{Passage}
use eyot_ai.Inject.Rows.{collab_inject, cerebellum_route, notify}
use eyot_ai.Messaging.{
  Directive, Directory, Outside, World, emit, MessageDeliveryResult, multiple_results, Outcome,
  returned, raised,
}
use eyot_ai.Messaging.Parts.{
  turn_text_for_directive, delivery_mode_for_instance, enqueue, conclude, messaging_event, shown,
  undelivered,
}
use eyot_ai.Messaging.Composer.{append_composer_message, UserTurn, schedule_user_turn}

-- the arguments of `route_message`
pub record Message : Type 0 where
  pub from_membership_id : String
  pub workspace_id : String
  pub directive : Directive
  pub general_text : Option String

module _ (t : Directory) (o : Outside) (q : Message) where
  abbrev target : Option String
  target = q.directive.target_entity

  abbrev pub turn_text : String
  turn_text = turn_text_for_directive q.directive q.general_text

  -- the fields that the payloads of the events begin with
  abbrev pub blocked_payload : Option String → Fields → Fields
  blocked_payload instance_id more = field "target_entity" (opt_text target) (
      field "cmd" (text q.directive.cmd) (
        field "workspace_id" (text q.workspace_id)
          (field "instance_id" (opt_text instance_id) more)))

  abbrev pub transcript : String → String → Option String → Option String → World → World
  transcript role content instance_id author w =
      (append_composer_message t o
        (record {
          workspace_id = q.workspace_id;
          role = role;
          content = content;
          target_entity = target;
          instance_id = instance_id;
          turn_id = none;
          status = "completed";
          author_user_id = author;
        })
        w).1

  -- the event, and then the two transcript rows, of `_route_to_cerebellum`
  abbrev pub blocked_cerebellum : Option String → Option String → World → World
  blocked_cerebellum instance_id to_membership_id w =
      emit o
        (messaging_event messaging_delivery_blocked q.from_membership_id
          (if is_none instance_id then "workspace" else "instance")
          (elim instance_id [ none ↦ q.workspace_id | some k ↦ k ])
          (blocked_payload instance_id (
            field "to_membership_id" (opt_text to_membership_id) (
              field "reason_detail" (text "routed_to_cerebellum")
                (field "text" (text turn_text) end)))))
        w

  unfoldable pub told_cerebellum : Option String → Option String → Option String → World → World
  told_cerebellum instance_id to_membership_id author w =
      transcript "assistant"
        (join "" ("@" ∷ shown target ∷ " 尚未连接通道，消息已转交小脑。" ∷ "请先在拓扑中连接通道后再试。" ∷ [])) instance_id none
        (transcript "user" turn_text instance_id author
          (blocked_cerebellum instance_id to_membership_id w))

  abbrev pub cerebellum_payload : Fields
  cerebellum_payload = field "text" (text turn_text) (
      field "target_entity" (opt_text target)
        (field "from_membership_id" (text q.from_membership_id) end))

  -- `_route_to_cerebellum`
  unfoldable pub route_to_cerebellum :
      Option String → Option String → Option String → World → Outcome MessageDeliveryResult
  unfolding enqueue told_cerebellum
  route_to_cerebellum instance_id to_membership_id author w =
      let told = told_cerebellum instance_id to_membership_id author w in
      let result = undelivered target "routed_to_cerebellum" instance_id in
      elim instance_id [
        | none ↦ returned result told
        | some k ↦
            conclude result (
              enqueue o k cerebellum_route notify cerebellum_payload (take_chars 200 turn_text)
                told)
      ]

  -- no passage: a user's words go to the cerebellum, an agent's are dropped
  unfoldable pub not_neighbor :
      Option String → String → Option String → Event → World → Outcome MessageDeliveryResult
  unfolding route_to_cerebellum
  not_neighbor author k to_membership_id blocked w =
      if not (is_none author)
      then route_to_cerebellum (some k) to_membership_id author w
      else returned (undelivered target "not_neighbor" (some k)) (emit o blocked w)

  -- the event of a message that goes through a passage
  unfoldable pub announced : String → String → String → Passage → World → World
  announced slug k to_membership_id passage w =
      emit o
        (messaging_event messaging_message_sent q.from_membership_id "instance" k (
          field "target_entity" (text slug) (
            field "cmd" (text q.directive.cmd) (
              field "args" (arr (items q.directive.args)) (
                field "workspace_id" (text q.workspace_id) (
                  field "instance_id" (text k) (
                    field "to_membership_id" (text to_membership_id) (
                      field "passage_id" (text passage.id)
                        (field "general_text" (opt_text q.general_text) end)))))))))
        w

  abbrev pub collab_payload : String → Passage → Fields
  collab_payload slug passage = field "target_entity" (text slug) (
      field "cmd" (text q.directive.cmd) (
        field "args" (arr (items q.directive.args))
          (field "text" (text turn_text) (field "passage_id" (text passage.id) end))))

  abbrev pub user_turn : String → String → UserTurn
  user_turn slug k = record {
    workspace_id = q.workspace_id;
    instance_id = k;
    target_entity = slug;
    text = turn_text;
    cmd = if is_empty q.directive.cmd then none else some q.directive.cmd;
    from_membership_id = q.from_membership_id;
  }

  abbrev pub delivered_result : String → String → String → MessageDeliveryResult
  delivered_result slug k turn_id = record {
    target_entity = slug;
    delivered = true;
    reason = none;
    instance_id = some k;
    turn_id = some turn_id;
  }

  -- the user turn that follows the enqueue
  unfoldable pub schedule : String → String → Outcome Unit → Outcome MessageDeliveryResult
  unfolding schedule_user_turn
  schedule slug k (raised e w) = raised e w
  schedule slug k (returned _ w) =
      let (turn_id, scheduled) = schedule_user_turn t o (user_turn slug k) w in
      returned (delivered_result slug k turn_id) scheduled

  -- a passage: the message is sent, enqueued for the instance and made a user turn
  unfoldable pub deliver :
      String → String → String → Passage → World → Outcome MessageDeliveryResult
  unfolding delivery_mode_for_instance enqueue announced schedule
  deliver slug k to_membership_id passage w =
      let sent = announced slug k to_membership_id passage w in
      elim (delivery_mode_for_instance k sent) [
        | none ↦ raised multiple_results sent
        | some mode ↦ schedule slug k (
            enqueue o k collab_inject mode (collab_payload slug passage) (take_chars 200 turn_text)
              sent)
      ]
