-- ===== src/Inject/Rows.antt =====
-- The rows of `instance_inject_queue` (models/inject_queue.py) and the events about them. A time is a
-- number of microseconds; every write sets `updated_at` (models/base.py).
use eyot_ai.Prelude.{ℕ, ◌+◌, String, Bool, true, false, Option, none, some, List, [], ◌∷◌}
use eyot_ai.Json.{Value, Fields, text, arr, nil, end, field, get, opt_text}
use eyot_ai.Audit.{Event}

pub data InjectStatus : Type 0 where
  pending delivered acked failed expired : InjectStatus

abbrev pub is_pending : InjectStatus → Bool
is_pending pending = true
is_pending _ = false

abbrev pub is_delivered : InjectStatus → Bool
is_delivered delivered = true
is_delivered _ = false

-- `_COMPLETED_STATUSES`
abbrev pub is_completed : InjectStatus → Bool
is_completed acked = true
is_completed failed = true
is_completed expired = true
is_completed _ = false

pub data InjectKind : Type 0 where
  collab_inject gene_inject capability_inject cerebellum_route : InjectKind

abbrev kind_text : InjectKind → String
kind_text collab_inject = "collab_inject"
kind_text gene_inject = "gene_inject"
kind_text capability_inject = "capability_inject"
kind_text cerebellum_route = "cerebellum_route"

pub data DeliveryMode : Type 0 where
  notify soft_inject wake : DeliveryMode

abbrev mode_text : DeliveryMode → String
mode_text notify = "notify"
mode_text soft_inject = "soft_inject"
mode_text wake = "wake"

-- `_ACKED_MODES`
abbrev pub is_acked_mode : DeliveryMode → Bool
is_acked_mode notify = false
is_acked_mode _ = true

-- `InstanceInjectQueue`
pub record Row : Type 0 where
  pub id : String
  pub instance_id : String
  pub kind : InjectKind
  pub delivery_mode : DeliveryMode
  pub payload : Fields
  pub status : InjectStatus
  pub expires_at : ℕ
  pub acked_at : Option ℕ
  pub error_message : Option String
  pub created_at : ℕ
  pub updated_at : ℕ
  pub deleted_at : Option ℕ

-- the table and the audit log
pub record Store : Type 0 where
  pub rows : List Row
  pub events : List Event

-- `_DEFAULT_TTL` and `_COMPLETED_SWEEP_AGE`
abbrev pub default_ttl : ℕ
default_ttl = 3600000000

abbrev pub completed_sweep_age : ℕ
completed_sweep_age = 604800000000

abbrev pub row_event : String → Row → Fields → Event
row_event type row more = record {
  event_type = type;
  actor_type = "system";
  actor_id = none;
  resource_type = some "instance";
  resource_id = some row.instance_id;
  payload = field "queue_id" (text row.id) (
      field "kind" (text (kind_text row.kind))
        (field "delivery_mode" (text (mode_text row.delivery_mode)) more));
}

-- `payload.get(key, [])`
abbrev pub ids_of : Fields → String → Value
ids_of payload key = elim (get payload key) [ none ↦ arr nil | some v ↦ v ]

abbrev pub requested_event : Row → Option String → Event
requested_event row tldr =
    row_event "harness.inject_requested" row (field "tldr" (opt_text tldr) end)

-- the learning events that `enqueue_inject` adds
unfoldable pub learning_events : Row → Option String → InjectKind → List Event
learning_events row tldr capability_inject =
    row_event "learning.capability_injected" row (
      field "capability_ids" (ids_of row.payload "capability_ids")
        (field "tldr" (opt_text tldr) end))
    ∷ []
learning_events row tldr gene_inject =
    row_event "learning.gene_injected" row
      (field "gene_ids" (ids_of row.payload "gene_ids") (field "tldr" (opt_text tldr) end))
    ∷ []
learning_events row tldr _ = []

-- the arguments of `enqueue_inject`, with the id that the row is given
pub record Request : Type 0 where
  pub id : String
  pub instance_id : String
  pub kind : InjectKind
  pub delivery_mode : DeliveryMode
  pub payload : Fields
  pub tldr : Option String

abbrev pub new_row : ℕ → Request → Row
new_row now q = record {
  id = q.id;
  instance_id = q.instance_id;
  kind = q.kind;
  delivery_mode = q.delivery_mode;
  payload = q.payload;
  status = pending;
  expires_at = now + default_ttl;
  acked_at = none;
  error_message = none;
  created_at = now;
  updated_at = now;
  deleted_at = none;
}
