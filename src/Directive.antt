-- ===== src/Directive.antt =====
-- core/directive_router.py: the directives of a turn go to the supervisor, to the distiller or to the
-- message router. The text of the turn is parsed already.
pub mod Distill
pub mod Activation
pub mod Control
mod Examples
pub mod Learned
pub mod Route
pub mod Echoed
pub mod Turns
use eyot_ai.Prelude.{ℕ, String, Bool, Option, List, [], ◌&&◌, ◌==◌, is_none, find}
use eyot_ai.Models.{Entity, Instance, is_active}
use eyot_ai.Access.Tables.{Namespace}
use eyot_ai.Messaging.{Directory, Directive, World, MessageDeliveryResult, RouteError}

-- `Memory` of models/memory.py
pub record Memory : Type 0 where
  pub entity_id : String
  pub kind : String
  pub key : Option String
  pub content : Option String
  pub created_at : ℕ
  pub deleted_at : Option ℕ

-- `CapabilityMarketEntry` of models/capability_market.py
pub record Capability : Type 0 where
  pub name : String
  pub cap_type : String
  pub scope : String
  pub organization_id : Option String
  pub created_via : String
  pub description : Option String
  pub required_knowledge : Option (List String)
  pub source_entity_slug : Option String
  pub deleted_at : Option ℕ

-- the rows that the distillation reads
pub record Archive : Type 0 where
  pub memories : List Memory
  pub namespaces : List Namespace

-- what a turn writes: the state of messages, the market, and the agent runtimes that were started
pub record Site : Type 0 where
  pub world : World
  pub market : List Capability
  pub runtimes : List String

-- `DirectiveResult`; `engine_used` is always "heuristic"
pub record DirectiveResult : Type 0 where
  pub directive_raw : String
  pub target_entity : Option String
  pub cmd : String
  pub results : List MessageDeliveryResult
  pub created_capabilities : List (String × String)

-- a result without deliveries
abbrev pub echo : Directive → DirectiveResult
echo d = record {
  directive_raw = d.raw_text;
  target_entity = d.target_entity;
  cmd = d.cmd;
  results = [];
  created_capabilities = [];
}

-- what a step returns or raises, with the state that it leaves
pub data Answer (A : Type 0) : Type 0 where
  answered : A → Site → Answer A
  aborted : RouteError → Site → Answer A

-- the first live entity of the slug
abbrev pub entity_of : Directory → String → Option Entity
entity_of t slug = find (λ e. (e.slug == slug) && is_none e.deleted_at) t.entities

-- the first instance of the entity that is up or coming up in the workspace
abbrev pub instance_of : Directory → String → String → Option Instance
instance_of t entity_id workspace_id =
    find
      (λ i.
        (i.entity_id == entity_id)
        && (i.workspace_id == workspace_id)
        && is_active i.status
        && is_none i.deleted_at)
      t.instances
