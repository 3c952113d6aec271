-- ===== src/Messaging/Router.antt =====
-- core/message_router.py: a directive goes to the instances of the entity that it names.
use eyot_ai.Prelude.{
  String, Bool, Option, none, some, List, [], ◌∷◌, ◌==◌, ◌&&◌, if◌then◌else◌, find, filter, is_none,
  opt_is,
}
use eyot_ai.Json.{text, end, field}
use eyot_ai.Audit.{messaging_delivery_blocked}
use eyot_ai.Models.{Entity, Instance, is_active, Membership, absent, several, single, one_or_none}
use eyot_ai.Topology.Passages.{find_active_passage_between}
use eyot_ai.Messaging.{
  Directory, Outside, World, MessageDeliveryResult, multiple_results, Outcome, returned, raised,
}
use eyot_ai.Messaging.Parts.{messaging_event, undelivered}
use eyot_ai.Messaging.Sending.{Message, blocked_payload, not_neighbor, deliver}

module _ (t : Directory) (o : Outside) (q : Message) where
  -- the instance's live membership of the workspace
  abbrev pub is_seat : String → Membership → Bool
  is_seat k m = opt_is m.instance_id k && (m.workspace_id == q.workspace_id) && is_none m.deleted_at

  -- the body of the loop over the recipients
  unfoldable pub route_to_instance :
      Option String → String → Instance → World → Outcome MessageDeliveryResult
  unfolding not_neighbor deliver
  route_to_instance author slug i w = elim (one_or_none (filter (is_seat i.id) t.memberships)) [
    | several ↦ raised multiple_results w
    | absent ↦
        not_neighbor t o q author i.id none
          (messaging_event messaging_delivery_blocked q.from_membership_id "instance" i.id (
            blocked_payload t o q (some i.id)
              (field "reason_detail" (text "target_membership_missing") end)))
          w
    | single to ↦
        elim (find_active_passage_between q.workspace_id q.from_membership_id to.id t.passages) [
          | none ↦
              not_neighbor t o q author i.id (some to.id)
                (messaging_event messaging_delivery_blocked q.from_membership_id "membership" to.id
                  (blocked_payload t o q (some i.id) (field "to_membership_id" (text to.id) end)))
                w
          | some passage ↦ deliver t o q slug i.id to.id passage w
        ]
  ]

  -- the loop; an exception leaves it
  unfoldable pub route_to_instances :
      Option String → String → List Instance → World → Outcome (List MessageDeliveryResult)
  unfolding route_to_instance
  route_to_instances author slug [] w = returned [] w
  route_to_instances author slug (i ∷ instances) w = elim (route_to_instance author slug i w) [
    | raised e w' ↦ raised e w'
    | returned r w' ↦ elim (route_to_instances author slug instances w') [
      | raised e w'' ↦ raised e w''
      | returned rs w'' ↦ returned (r ∷ rs) w''
    ]
  ]

  -- the user of the sender's live membership: `none` where `sender_is_user` is false
  pub author_user_id : Option String
  author_user_id = elim (find (λ m. m.id == q.from_membership_id) t.memberships) [
    | none ↦ none
    | some m ↦ if is_none m.deleted_at then m.user_id else none
  ]

  abbrev pub has_slug : String → Entity → Bool
  has_slug slug e = (e.slug == slug) && is_none e.deleted_at

  -- the entity's instances that are up or coming up in the workspace
  abbrev pub is_recipient : String → Instance → Bool
  is_recipient entity_id i =
      (i.entity_id == entity_id)
      && (i.workspace_id == q.workspace_id)
      && is_active i.status
      && is_none i.deleted_at

  unfoldable pub route_to_recipients :
      String → List Instance → World → Outcome (List MessageDeliveryResult)
  unfolding route_to_instances author_user_id
  route_to_recipients slug [] w =
      returned (undelivered (some slug) "no_active_instance" none ∷ []) w
  route_to_recipients slug (i ∷ instances) w =
      route_to_instances author_user_id slug (i ∷ instances) w

  unfoldable pub route_message : World → Outcome (List MessageDeliveryResult)
  unfolding route_to_recipients
  route_message w = elim q.directive.target_entity [
    | none ↦ returned [] w
    | some slug ↦ elim (one_or_none (filter (has_slug slug) t.entities)) [
      | several ↦ raised multiple_results w
      | absent ↦ returned (undelivered (some slug) "entity_not_found" none ∷ []) w
      | single e ↦ route_to_recipients slug (filter (is_recipient e.id) t.instances) w
    ]
  ]
