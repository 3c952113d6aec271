-- ===== src/Directive/Route.antt =====
-- `route_turn` of core/directive_router.py, over the directives of the parsed turn.
use eyot_ai.Prelude.{
  String, Option, none, some, List, [], ◌∷◌, ◌==◌, ◌&&◌, find, if◌then◌else◌, is_none, opt_is,
}
use eyot_ai.Text.{is_empty}
use eyot_ai.Models.{Entity}
use eyot_ai.Messaging.{Directory, Outside, Directive, Turn, MessageDeliveryResult, returned, raised}
use eyot_ai.Messaging.Router.{route_message}
use eyot_ai.Directive.{
  Archive, Site, DirectiveResult, echo, Answer, answered, aborted, entity_of, instance_of,
}
use eyot_ai.Directive.Activation.{trigger_on_mention}
use eyot_ai.Directive.Control.{
  is_control_command, is_learning_command, route_control_directive, route_learning_directive,
}

-- `lower` is Python's `str.lower`
module _ (lower : String → String) (t : Directory) (a : Archive) (o : Outside)
    (workspace_id : String) where
  -- the activation for each delivered result
  pub mention_all : Option Entity → List MessageDeliveryResult → Site → Site
  unfolding trigger_on_mention
  mention_all none results s = s
  mention_all (some e) [] s = s
  mention_all (some e) (r ∷ results) s =
      mention_all (some e) results
        (if r.delivered then trigger_on_mention t o e.id workspace_id s else s)

  -- the message, and then its mentions
  unfoldable pub send :
      String → Option String → Directive → Option Entity → Site → Answer DirectiveResult
  unfolding route_message mention_all
  send from general_text d target s =
      elim (route_message t o
        (record {
          from_membership_id = from;
          workspace_id = workspace_id;
          directive = d;
          general_text = general_text;
        })
        s.world) [
          | raised e w ↦ aborted e (record s { world = w })
          | returned results w ↦
              answered (record (echo d) { results = results })
                (mention_all target results (record s { world = w }))
        ]

  -- a directive to an entity that is there but has no instance is not sent
  unfoldable pub route_plain_directive :
      String → Option String → Directive → Site → Answer DirectiveResult
  unfolding send
  route_plain_directive from general_text d s = elim d.target_entity [
    | none ↦ send from general_text d none s
    | some slug ↦
        if is_empty slug then send from general_text d none s else elim (entity_of t slug) [
          | none ↦ send from general_text d none s
          | some e ↦ elim (instance_of t e.id workspace_id) [
            | none ↦ answered (echo d) s
            | some i ↦ send from general_text d (some e) s
          ]
        ]
  ]

  -- the body of the loop
  unfoldable pub route_directive :
      String → String → Option String → Directive → Site → Answer DirectiveResult
  unfolding route_plain_directive route_control_directive route_learning_directive
  route_directive from_user_id from general_text d s =
      if is_control_command d.cmd
      then route_control_directive t o workspace_id d s
      else if is_learning_command d.cmd
      then route_learning_directive lower t a o from_user_id d s
      else route_plain_directive from general_text d s

  unfoldable pub route_directives :
      String → String → Option String → List Directive → Site → Answer (List DirectiveResult)
  unfolding route_directive
  route_directives user from general_text [] s = answered [] s
  route_directives user from general_text (d ∷ directives) s =
      elim (route_directive user from general_text d s) [
        | aborted e s' ↦ aborted e s'
        | answered r s' ↦ elim (route_directives user from general_text directives s') [
          | aborted e s'' ↦ aborted e s''
          | answered rs s'' ↦ answered (r ∷ rs) s''
        ]
      ]

  -- `route_turn`; a sender who is no member gets no result
  unfoldable pub route_turn : Turn → String → Site → Answer (List DirectiveResult)
  unfolding route_directives
  route_turn turn from_user_id s =
      elim (find
        (λ m.
          opt_is m.user_id from_user_id && (m.workspace_id == workspace_id) && is_none m.deleted_at)
        t.memberships) [
          | none ↦ answered [] s
          | some m ↦ route_directives from_user_id m.id turn.general_text turn.directives s
        ]
