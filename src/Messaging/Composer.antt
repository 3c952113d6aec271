-- ===== src/Messaging/Composer.antt =====
-- Transcript rows and user turns (services/composer_transcript.py, core/composer_turns.py).
use eyot_ai.Prelude.{
  ◌+◌, String, Bool, Option, none, some, [], ◌∷◌, ◌++◌, ◌==◌, if◌then◌else◌, find, any, ◌&&◌,
  is_none,
}
use eyot_ai.Json.{text, opt_text, end, field}
use eyot_ai.Audit.{harness_control_sent}
use eyot_ai.Messaging.{Directory, Outside, World, emit}

-- the arguments of `append_composer_message`
pub record MessageDraft : Type 0 where
  pub workspace_id : String
  pub role : String
  pub content : String
  pub target_entity : Option String
  pub instance_id : Option String
  pub turn_id : Option String
  pub status : String
  pub author_user_id : Option String

-- the row's id, where the workspace is there
unfoldable pub append_composer_message :
    Directory → Outside → MessageDraft → World → Option String × World
append_composer_message t o d w = elim (find (λ s. s.id == d.workspace_id) t.workspaces) [
  | none ↦ (none, w)
  | some s ↦
      if is_none s.deleted_at
      then (
        some (o.uuid4 w.drawn),
        record w {
          messages =
              w.messages
              ++ record {
                id = o.uuid4 w.drawn;
                namespace_id = s.namespace_id;
                workspace_id = d.workspace_id;
                role = d.role;
                content = d.content;
                target_entity = d.target_entity;
                instance_id = d.instance_id;
                turn_id = d.turn_id;
                status = d.status;
                author_user_id = d.author_user_id;
                deleted_at = none;
              }
                ∷ [];
          drawn = w.drawn + 1;
        },
      )
      else (none, w)
]

-- `instance_has_active_turn`
unfoldable pub instance_has_active_turn : String → World → Bool
instance_has_active_turn k w = any (λ s. s.instance_id == k && s.status == "responding") w.turns

-- the arguments of `schedule_user_turn`
pub record UserTurn : Type 0 where
  pub workspace_id : String
  pub instance_id : String
  pub target_entity : String
  pub text : String
  pub cmd : Option String
  pub from_membership_id : String

-- the `user_id` of the sender's row, if there is one
abbrev pub user_of : Directory → String → Option String
user_of t from = elim (find (λ m. m.id == from) t.memberships) [ none ↦ none | some m ↦ m.user_id ]

-- the user's row, and the assistant's that the reply fills
abbrev pub user_draft : Directory → UserTurn → String → MessageDraft
user_draft t u turn_id = record {
  workspace_id = u.workspace_id;
  role = "user";
  content = u.text;
  target_entity = some u.target_entity;
  instance_id = some u.instance_id;
  turn_id = some turn_id;
  status = "completed";
  author_user_id = user_of t u.from_membership_id;
}

abbrev pub assistant_draft : UserTurn → String → MessageDraft
assistant_draft u turn_id = record {
  workspace_id = u.workspace_id;
  role = "assistant";
  content = "";
  target_entity = some u.target_entity;
  instance_id = some u.instance_id;
  turn_id = some turn_id;
  status = "responding";
  author_user_id = none;
}

-- the two rows of a turn, by their ids
unfoldable pub append_turn :
    Directory → Outside → UserTurn → String → World → (Option String × Option String) × World
append_turn t o u turn_id w =
    let (user_row, asked) = append_composer_message t o (user_draft t u turn_id) w in
    let (assistant_row, ready) = append_composer_message t o (assistant_draft u turn_id) asked in
    ((user_row, assistant_row), ready)

-- The turn's id. It is a fresh uuid4, so that its entry in the dict of turns is a new one, the last.
unfoldable pub schedule_user_turn : Directory → Outside → UserTurn → World → String × World
unfolding append_turn
schedule_user_turn t o u w =
    let turn_id = o.uuid4 w.drawn in
    let ((user_row, assistant_row), ready) =
      append_turn t o u turn_id (record w { drawn = w.drawn + 1 }) in
    let sent =
      emit o
        (record {
          event_type = harness_control_sent;
          actor_type = "membership";
          actor_id = some u.from_membership_id;
          resource_type = some "instance";
          resource_id = some u.instance_id;
          payload = field "action" (text "user_turn") (
              field "instance_id" (text u.instance_id) (
                field "turn_id" (text turn_id) (
                  field "text" (text u.text) (
                    field "cmd" (opt_text u.cmd) (
                      field "target_entity" (text u.target_entity)
                        (field "workspace_id" (text u.workspace_id) end))))));
        })
        ready in
    let via_tunnel = o.tunnel_takes u.instance_id in
    (
      turn_id,
      record sent {
        turns =
            sent.turns
            ++ record {
              turn_id = turn_id;
              instance_id = u.instance_id;
              workspace_id = u.workspace_id;
              target_entity = u.target_entity;
              status = "responding";
              text = u.text;
              reply_text = "";
              queue = [];
              history = [];
              via_tunnel = via_tunnel;
              user_message_id = user_row;
              assistant_message_id = assistant_row;
              from_user_id = user_of t u.from_membership_id;
            }
              ∷ [];
        tasks = if via_tunnel then sent.tasks else sent.tasks ++ turn_id ∷ [];
      },
    )
