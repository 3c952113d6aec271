-- ===== src/Messaging/Stream.antt =====
-- The frames of a reply (core/composer_turns.py, `ingest_tunnel_chat_frame`). A call runs to its end
-- before the next one: what other tasks do while it waits is left out. The queue has all that was put
-- into it, whether a subscriber has taken it or not.
mod Examples
use eyot_ai.Prelude.{
  String, Bool, not, Option, none, some, List, [], ◌∷◌, ◌++◌, ◌==◌, ◌&&◌, if◌then◌else◌, find,
  filter, update, update_first, opt_is, is_none,
}
use eyot_ai.Json.{Value, Fields, text, get, put}
use eyot_ai.Text.{strip, is_empty, join}
use eyot_ai.Audit.{
  Event, chat_response_chunk, chat_response_done, chat_response_error, chat_response_activity,
}
use eyot_ai.Overlay.Resolve.{get_or}
use eyot_ai.Models.{absent, several, single, one_or_none}
use eyot_ai.Messaging.{Outside, ComposerMessage, ComposerTurnState, World, emit}

-- `d.setdefault(k, v)`
abbrev set_default : Fields → String → Value → Fields
set_default d k v = elim (get d k) [ none ↦ put d k v | some w ↦ d ]

-- a text of the document that is not empty
abbrev text_at : Fields → String → String
text_at d k = elim (get d k) [ some (text s) ↦ s | _ ↦ "" ]

-- the row of the turn's reply
abbrev pub is_reply : String → ComposerMessage → Bool
is_reply turn_id m = opt_is m.turn_id turn_id && m.role == "assistant" && is_none m.deleted_at

-- `update_composer_message_by_turn`; several rows raise, which its caller swallows
pub update_composer_message_by_turn :
    String → String → String → List ComposerMessage → List ComposerMessage
update_composer_message_by_turn turn_id content status messages =
    elim (one_or_none (filter (is_reply turn_id) messages)) [
      | absent ↦ messages
      | several ↦ messages
      | single m ↦
          update (is_reply turn_id) (λ r. record r { content = content; status = status }) messages
    ]

-- `_emit_frame`
pub emit_frame : Fields → ComposerTurnState → ComposerTurnState
emit_frame frame s = record s {
  history = s.history ++ frame ∷ [];
  queue = s.queue ++ some frame ∷ [];
}

-- the end of the queue, behind the writing of the reply
pub close : ComposerTurnState → ComposerTurnState
close s = record s { queue = s.queue ++ none ∷ [] }

-- the frame with the turn's own names
abbrev pub addressed : ComposerTurnState → Fields → Fields
addressed s frame =
    put (put (put frame "turn_id" (text s.turn_id)) "instance_id" (text s.instance_id))
      "target_entity" (get_or frame "target_entity" (text s.target_entity))

abbrev pub is_turn : String → ComposerTurnState → Bool
is_turn turn_id s = s.turn_id == turn_id

-- `frame.get("type")`, where it is a text
abbrev pub type_of : Fields → String
type_of frame = text_at frame "type"

-- `_persist_chat_event`
abbrev chat_event : String → ComposerTurnState → Fields → Event
chat_event type s frame = record {
  event_type = type;
  actor_type = "instance";
  actor_id = some s.instance_id;
  resource_type = some "instance";
  resource_id = some s.instance_id;
  payload = frame;
}

-- the text that `_finalize_assistant_message` stores
pub final_body : String → String → String
final_body content reply =
    if is_empty (strip content) && not (is_empty (strip reply)) then reply else content

-- `str` is Python's
module _ (str : Value → String) where
  abbrev message_of : Fields → String → String
  message_of frame reply = elim (get_or frame "message" (text reply)) [ text s ↦ s | v ↦ str v ]

  pub ingest_done : Fields → ComposerTurnState → ComposerTurnState × Fields
  unfolding emit_frame
  ingest_done frame s =
      let said = text_at frame "text" in
      let reply = if is_empty (strip said) then s.reply_text else said in
      let labelled = set_default frame "status" (text "completed") in
      let full = put labelled "text" (get_or labelled "text" (text reply)) in
      (emit_frame full (record s { status = "completed"; reply_text = reply }), full)

  pub ingest_error : Fields → ComposerTurnState → ComposerTurnState × Fields
  unfolding emit_frame
  ingest_error frame s =
      let labelled = set_default frame "status" (text "failed") in
      (emit_frame labelled (record s { status = "failed" }), labelled)

  pub ingest_chunk : Fields → ComposerTurnState → ComposerTurnState × Fields
  unfolding emit_frame
  ingest_chunk frame s =
      let labelled = set_default frame "status" (text "responding") in
      (
        emit_frame labelled
            (record s { reply_text = join "" (s.reply_text ∷ text_at frame "token" ∷ []) }),
        labelled,
      )

  -- the turn's new state, with the frame as it was emitted and what is to be stored of the reply
  pub ingest_state :
      String
      → Fields
      → ComposerTurnState
      → Option (ComposerTurnState × Fields × Option (String × String))
  unfolding ingest_done ingest_error ingest_chunk final_body
  ingest_state type frame s =
      if type == chat_response_chunk
      then (let (s', f) = ingest_chunk frame s in some (s', f, none))
      else if type == chat_response_done
      then (let (s', f) = ingest_done frame s in
          some (s', f, some (final_body s'.reply_text s'.reply_text, "completed")))
      else if type == chat_response_error
      then (let (s', f) = ingest_error frame s in
          some (s', f, some (final_body (message_of f s.reply_text) s.reply_text, "failed")))
      else if type == chat_response_activity
      then some (emit_frame frame s, frame, none)
      else none

  -- `ingest_tunnel_chat_frame`
  pub ingest_tunnel_chat_frame : Outside → String → Fields → World → World
  unfolding ingest_state update_composer_message_by_turn close
  ingest_tunnel_chat_frame o turn_id frame w = elim (find (is_turn turn_id) w.turns) [
    | none ↦ w
    | some s ↦ elim (ingest_state (type_of frame) (addressed s frame) s) [
      | none ↦ w
      | some (s', f, stored) ↦
          let told =
            emit o (chat_event (type_of frame) s' f)
              (record w { turns = update_first (is_turn turn_id) (λ x. s') w.turns }) in
          elim stored [
            | none ↦ told
            | some (content, status) ↦ record told {
              messages = update_composer_message_by_turn turn_id content status told.messages;
              turns = update_first (is_turn turn_id) close told.turns;
            }
          ]
    ]
  ]
