-- ===== src/Knowledge.antt =====
-- eyot-backend/app/core/knowledge.py: which knowledge rows an instance gets.
pub mod Groups
pub mod Picks
pub mod Winners
mod Examples
use eyot_ai.Prelude.{
  ℕ, String, Bool, true, false, not, ◌&&◌, ◌||◌, Option, none, some, List, [], ◌∷◌, ◌++◌, ◌==◌, ltb,
  leb, eqb, str_leb, if◌then◌else◌, is_none, opt_is, find, filter, contains, sort,
}
use eyot_ai.Models.{Entity, Instance}
use eyot_ai.Access.Tables.{Namespace}

-- `KnowledgeEntry` of models/knowledge.py, by the columns that are read
pub record KnowledgeEntry : Type 0 where
  pub id : String
  pub key : String
  pub body : String
  pub scope : String
  pub organization_id : Option String
  pub namespace_id : Option String
  pub workspace_id : Option String
  pub entity_id : Option String
  pub instance_id : Option String
  pub updated_at : ℕ
  pub deleted_at : Option ℕ

pub record KnowledgeTables : Type 0 where
  pub entities : List Entity
  pub namespaces : List Namespace
  pub instances : List Instance
  pub entries : List KnowledgeEntry

-- `SCOPE_PRIORITY.get(scope, 99)`
pub scope_priority : String → ℕ
scope_priority s =
    if s == "workspace"
    then 0
    else if s == "namespace"
    then 1
    else if s == "org"
    then 2
    else if s == "system"
    then 3
    else 99

-- `_scope_chain`
pub scope_chain : KnowledgeTables → String → Option String × Option String
scope_chain t entity_id = elim (find (λ e. e.id == entity_id) t.entities) [
  | none ↦ (none, none)
  | some e ↦
      if not (is_none e.deleted_at)
      then (none, none)
      else elim (find (λ n. n.id == e.namespace_id) t.namespaces) [
        | none ↦ (none, some e.namespace_id)
        | some n ↦
            if not (is_none n.deleted_at)
            then (none, some e.namespace_id)
            else (some n.org_id, some e.namespace_id)
      ]
]

-- `column == value` of a query: `IS NULL` where the value is `None`
abbrev pub col_eq : Option String → Option String → Bool
col_eq column none = is_none column
col_eq column (some v) = opt_is column v

-- `_visibility_clause`
unfoldable pub is_visible : Option String → Option String → Option String → KnowledgeEntry → Bool
is_visible none ns ws k = k.scope == "system"
is_visible (some org) ns ws k =
    k.scope == "system"
    || (k.scope == "org" && opt_is k.organization_id org)
    || (k.scope == "namespace" && opt_is k.organization_id org && col_eq k.namespace_id ns)
    || (k.scope == "workspace"
        && opt_is k.organization_id org
        && col_eq k.namespace_id ns
        && col_eq k.workspace_id ws)

-- what a call of `resolve_knowledge_winners` asks for
pub record Query : Type 0 where
  pub entity_id : String
  pub workspace_id : Option String
  pub instance_id : Option String
  pub keys : List String

-- `if keys:` an empty set is no filter
abbrev pub wanted : List String → String → Bool
wanted [] key = true
wanted (k ∷ keys) key = contains (k ∷ keys) key

-- the WHERE of the statement
pub is_candidate : KnowledgeTables → Query → KnowledgeEntry → Bool
unfolding scope_chain is_visible
is_candidate t q k =
    let (org, ns) = scope_chain t q.entity_id in
    is_none k.deleted_at
    && is_visible org ns q.workspace_id k
    && (is_none k.entity_id || opt_is k.entity_id q.entity_id)
    && (is_none k.instance_id || col_eq k.instance_id q.instance_id)
    && wanted q.keys k.key

-- `ORDER BY updated_at DESC, id DESC`
abbrev pub newer : KnowledgeEntry → KnowledgeEntry → Bool
newer a b = ltb b.updated_at a.updated_at || (leb b.updated_at a.updated_at && str_leb b.id a.id)

-- `groups.setdefault(row.key, []).append(row)`
pub add_to_group :
    KnowledgeEntry → List (String × List KnowledgeEntry) → List (String × List KnowledgeEntry)
add_to_group row [] = (row.key, row ∷ []) ∷ []
add_to_group row ((key, rows) ∷ groups) =
    let rest = add_to_group row groups in
    if key == row.key then (key, rows ++ row ∷ []) ∷ groups else (key, rows) ∷ rest

pub group_rows :
    List KnowledgeEntry → List (String × List KnowledgeEntry) → List (String × List KnowledgeEntry)
unfolding add_to_group
group_rows [] groups = groups
group_rows (row ∷ rows) groups = group_rows rows (add_to_group row groups)

-- `min` of the priorities; a group is not empty
pub best_rank : List KnowledgeEntry → ℕ
best_rank [] = 99
best_rank (c ∷ []) = scope_priority c.scope
best_rank (c ∷ d ∷ rest) =
    let r = best_rank (d ∷ rest) in
    if leb (scope_priority c.scope) r then scope_priority c.scope else r

-- the first candidate of the best priority
pub pick : List KnowledgeEntry → Option KnowledgeEntry
unfolding best_rank
pick candidates = find (λ c. eqb (scope_priority c.scope) (best_rank candidates)) candidates

-- the loop over `groups.values()`
pub pick_all : List (String × List KnowledgeEntry) → List KnowledgeEntry
unfolding pick
pick_all [] = []
pick_all ((key, candidates) ∷ groups) =
    let rest = pick_all groups in elim (pick candidates) [ none ↦ rest | some w ↦ w ∷ rest ]

pub resolve_knowledge_winners : KnowledgeTables → Query → List KnowledgeEntry
unfolding is_candidate group_rows pick_all sort
resolve_knowledge_winners t q =
    pick_all (group_rows (sort newer (filter (is_candidate t q) t.entries)) [])

pub resolve_knowledge_for_instance : KnowledgeTables → String → List KnowledgeEntry
unfolding resolve_knowledge_winners
resolve_knowledge_for_instance t instance = elim (find (λ i. i.id == instance) t.instances) [
  | none ↦ []
  | some i ↦
      if not (is_none i.deleted_at)
      then []
      else resolve_knowledge_winners t (record {
        entity_id = i.entity_id;
        workspace_id = some i.workspace_id;
        instance_id = some i.id;
        keys = [];
      })
]
