-- ===== src/Audit.antt =====
-- Audit events (eyot-backend/app/core/events.py, models/event.py, core/event_types.py): the row that
-- `emit` adds, with the event types that the modelled components use.
use eyot_ai.Prelude.{String, Option}
use eyot_ai.Json.{Fields}

pub record Event : Type 0 where
  pub event_type : String
  pub actor_type : String
  pub actor_id : Option String
  pub resource_type : Option String
  pub resource_id : Option String
  pub payload : Fields

abbrev pub harness_loop_started : String
harness_loop_started = "harness.loop_started"

abbrev pub harness_checkpoint : String
harness_checkpoint = "harness.checkpoint"

abbrev pub harness_continuation_injected : String
harness_continuation_injected = "harness.continuation_injected"

abbrev pub harness_loop_stopped : String
harness_loop_stopped = "harness.loop_stopped"

abbrev pub harness_breaker_tripped : String
harness_breaker_tripped = "harness.breaker_tripped"

abbrev pub harness_paused : String
harness_paused = "harness.paused"

abbrev pub harness_resumed : String
harness_resumed = "harness.resumed"

abbrev pub harness_interrupted : String
harness_interrupted = "harness.interrupted"

abbrev pub harness_control_sent : String
harness_control_sent = "harness.control_sent"

abbrev pub messaging_message_sent : String
messaging_message_sent = "messaging.message_sent"

abbrev pub messaging_delivery_blocked : String
messaging_delivery_blocked = "messaging.delivery_blocked"

abbrev pub messaging_activation_triggered : String
messaging_activation_triggered = "messaging.activation_triggered"

abbrev pub learning_distillation_completed : String
learning_distillation_completed = "learning.distillation_completed"

abbrev pub chat_response_chunk : String
chat_response_chunk = "chat.response.chunk"

abbrev pub chat_response_done : String
chat_response_done = "chat.response.done"

abbrev pub chat_response_error : String
chat_response_error = "chat.response.error"

abbrev pub chat_response_activity : String
chat_response_activity = "chat.response.activity"
