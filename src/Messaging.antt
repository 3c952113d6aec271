-- ===== src/Messaging.antt =====
-- The state that message routing works on: the tables that it reads, and what it writes
-- (schemas/slash.py, models/composer_message.py, core/composer_turns.py, core/message_router.py).
pub mod Accounts
pub mod Clear
pub mod Composer
pub mod Delivered
pub mod Examples
pub mod Enqueued
pub mod Parts
pub mod Routed
pub mod Sending
pub mod Stream
pub mod Router
pub mod Total
pub mod Turns
use eyot_ai.Prelude.{ℕ, ◌+◌, String, Bool, Option, List, [], ◌∷◌, ◌++◌, ◌≡◌, ◌⊎◌, inl, inr, refl}
use eyot_ai.Json.{Fields}
use eyot_ai.Audit.{Event}
use eyot_ai.Models.{Entity, Instance, Membership}
use eyot_ai.Access.Tables.{Workspace}
use eyot_ai.Topology.Passages.{Passage}
use eyot_ai.Inject.Tldr.{TldrError}
use eyot_ai.Inject.Rows.{Row}
use eyot_ai.Harness.State.{Harness}
use eyot_ai.Harness.Supervisor.{SupervisorError}
use eyot_ai.Harness.Breakers.{emit_plain}

-- `Directive` of schemas/slash.py, by the fields that the routers read
pub record Directive : Type 0 where
  pub target_entity : Option String
  pub cmd : String
  pub args : List String
  pub raw_text : String

-- `Turn`
pub record Turn : Type 0 where
  pub directives : List Directive
  pub general_text : Option String

-- the tables that routing reads and never writes
pub record Directory : Type 0 where
  pub entities : List Entity
  pub instances : List Instance
  pub memberships : List Membership
  pub passages : List Passage
  pub workspaces : List Workspace

-- the outside of a call: the clock, the ids that `uuid4` gives in turn, and whether the tunnel to an
-- instance is connected and takes a chat request
pub record Outside : Type 0 where
  pub now : ℕ
  pub uuid4 : ℕ → String
  pub tunnel_takes : String → Bool

-- `ComposerMessage`
pub record ComposerMessage : Type 0 where
  pub id : String
  pub namespace_id : String
  pub workspace_id : String
  pub role : String
  pub content : String
  pub target_entity : Option String
  pub instance_id : Option String
  pub turn_id : Option String
  pub status : String
  pub author_user_id : Option String
  pub deleted_at : Option ℕ

-- `ComposerTurnState`; the queue ends with `None`
pub record ComposerTurnState : Type 0 where
  pub turn_id : String
  pub instance_id : String
  pub workspace_id : String
  pub target_entity : String
  pub status : String
  pub text : String
  pub reply_text : String
  pub queue : List (Option Fields)
  pub history : List Fields
  pub via_tunnel : Bool
  pub user_message_id : Option String
  pub assistant_message_id : Option String
  pub from_user_id : Option String

-- `harness` holds the audit log; `turns` is `_TURNS`, a new id for each; `tasks` are the turns whose
-- stream the backend runs; `drawn` counts the ids that were drawn
pub record World : Type 0 where
  pub harness : Harness
  pub injects : List Row
  pub messages : List ComposerMessage
  pub turns : List ComposerTurnState
  pub tasks : List String
  pub drawn : ℕ

-- `emit`; no handler of the message events changes this state
abbrev pub emit : Outside → Event → World → World
emit o e w = record w { harness = emit_plain o.now e w.harness }

pub record MessageDeliveryResult : Type 0 where
  pub target_entity : String
  pub delivered : Bool
  pub reason : Option String
  pub instance_id : Option String
  pub turn_id : Option String

-- `MultipleResultsFound` of a query, the refusal of `enqueue_inject`, and that of the supervisor
pub data RouteError : Type 0 where
  multiple_results : RouteError
  tldr_refused : TldrError → RouteError
  supervisor_refused : SupervisorError → RouteError

-- what a routing function returns or raises, with the state that it leaves
pub data Outcome (A : Type 0) : Type 0 where
  returned : A → World → Outcome A
  raised : RouteError → World → Outcome A

-- the state that a call leaves
abbrev pub state_of : {A : Type 0} → Outcome A → World
state_of (returned a w) = w
state_of (raised e w) = w

pub Outcome-cases :
    {A : Type 0} (x : Outcome A)
    → ((a : A) × (w : World) × (x ≡ returned a w))
      ⊎ ((e : RouteError) × (w : World) × (x ≡ raised e w))
Outcome-cases (returned a w) = inl (a, w, refl)
Outcome-cases (raised e w) = inr (e, w, refl)
