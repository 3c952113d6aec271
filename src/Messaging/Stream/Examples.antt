-- ===== src/Messaging/Stream/Examples.antt =====
-- A turn that is started and answered in frames: tests.
use eyot_ai.Prelude.{String, ◌≡◌, refl, true, false, none, List, [], ◌∷◌, ◌++◌, map}
use eyot_ai.Json.{Value, Fields, text, field, end}
use eyot_ai.Overlay.Resolve.{truth}
use eyot_ai.Text.{strip, is_space, join}
use eyot_ai.Messaging.{World}
use eyot_ai.Messaging.Composer.{
  append_composer_message, schedule_user_turn, instance_has_active_turn,
}
use eyot_ai.Messaging.Examples.{office, outside, quiet}
use eyot_ai.Messaging.Stream.{ingest_tunnel_chat_frame}

abbrev str : Value → String
str v = "?"

take_frames : List Fields → World → World
take_frames [] w = w
take_frames (f ∷ frames) w = take_frames frames (ingest_tunnel_chat_frame str outside "id" f w)

started : World
started =
    (schedule_user_turn office outside
      (record {
        workspace_id = "w";
        instance_id = "i1";
        target_entity = "fox";
        text = "hi";
        cmd = none;
        from_membership_id = "user";
      })
      quiet).1

abbrev chunks : List Fields
chunks =
    field "type" (text "chat.response.chunk") (field "token" (text "hel") end)
    ∷ field "type" (text "chat.response.chunk") (field "token" (text "lo") end)
    ∷ []

abbrev finished : List Fields
finished = chunks ++ field "type" (text "chat.response.done") end ∷ []

replied : map (λ m. m.content) (take_frames finished started).messages ≡ "hi" ∷ "hello" ∷ []
unfolding take_frames started schedule_user_turn ingest_tunnel_chat_frame append_composer_message
    truth strip is_space join
replied = refl

active : instance_has_active_turn "i1" (take_frames chunks started) ≡ true
unfolding take_frames started schedule_user_turn ingest_tunnel_chat_frame append_composer_message
    truth strip is_space join instance_has_active_turn
active = refl

inactive : instance_has_active_turn "i1" (take_frames finished started) ≡ false
unfolding take_frames started schedule_user_turn ingest_tunnel_chat_frame append_composer_message
    truth strip is_space join instance_has_active_turn
inactive = refl
