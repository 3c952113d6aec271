-- ===== src/Knowledge/Examples.antt =====
-- Two workspaces' knowledge rows: tests, and the theorem on winners there.
use eyot_ai.Prelude.{ℕ, String, ◌≡◌, refl, none, some, [], ◌∷◌, Option, true, In, map}
use eyot_ai.Knowledge.{
  KnowledgeEntry, KnowledgeTables, Query, scope_priority, is_candidate, resolve_knowledge_winners,
  resolve_knowledge_for_instance,
}
use eyot_ai.Knowledge.Picks.{Beats}
use eyot_ai.Knowledge.Winners.{HaveOwnKeys, resolve_knowledge_winners-Beats}
use eyot_ai.Models.{running}

abbrev entry_at : String → String → String → Option String → ℕ → KnowledgeEntry
entry_at id key scope workspace updated_at = record {
  id = id;
  key = key;
  body = id;
  scope = scope;
  organization_id = some "o";
  namespace_id = some "n";
  workspace_id = workspace;
  entity_id = none;
  instance_id = none;
  updated_at = updated_at;
  deleted_at = none;
}

abbrev tables : KnowledgeTables
tables = record {
  entities = record { id = "e"; namespace_id = "n"; slug = "fox"; deleted_at = none } ∷ [];
  namespaces = record { id = "n"; org_id = "o"; deleted_at = none } ∷ [];
  instances =
      record { id = "i"; entity_id = "e"; workspace_id = "w"; status = running; deleted_at = none }
      ∷ record {
        id = "gone";
        entity_id = "e";
        workspace_id = "w";
        status = running;
        deleted_at = some 3;
      }
      ∷ [];
  entries =
      entry_at "k1" "style" "system" none 9
      ∷ entry_at "k2" "style" "workspace" (some "w") 4
      ∷ entry_at "k3" "style" "workspace" (some "v") 8
      ∷ entry_at "k4" "tone" "org" none 5
      ∷ entry_at "k5" "tone" "org" none 7
      ∷ entry_at "k6" "tone" "namespace" none 1
      ∷ entry_at "k7" "name" "org" none 2
      ∷ entry_at "k8" "name" "org" none 3
      ∷ [];
}

-- of the rows by key: the workspace's own, the namespace's, the later of two
winners : map (λ k. k.id) (resolve_knowledge_for_instance tables "i") ≡ "k2" ∷ "k6" ∷ "k8" ∷ []
unfolding resolve_knowledge_for_instance scope_priority
winners = refl

deleted_instance : resolve_knowledge_for_instance tables "gone" ≡ []
unfolding resolve_knowledge_for_instance scope_priority
deleted_instance = refl

abbrev query : Query
query = record {
  entity_id = "e";
  workspace_id = some "w";
  instance_id = some "i";
  keys = "tone" ∷ "style" ∷ [];
}

wanted_winners : map (λ k. k.id) (resolve_knowledge_winners tables query) ≡ "k2" ∷ "k6" ∷ []
unfolding resolve_knowledge_winners scope_priority
wanted_winners = refl

resolve_knowledge_winners-Beats_example :
    ((w : KnowledgeEntry)
      → In w (resolve_knowledge_winners tables query)
      → (In w tables.entries × (is_candidate tables query w ≡ true))
        × ((c : KnowledgeEntry)
            → In c tables.entries
            → is_candidate tables query c ≡ true
            → c.key ≡ w.key
            → Beats w c))
    × ((c : KnowledgeEntry)
        → In c tables.entries
        → is_candidate tables query c ≡ true
        → (w : KnowledgeEntry) × In w (resolve_knowledge_winners tables query) × (w.key ≡ c.key))
    × HaveOwnKeys (resolve_knowledge_winners tables query)
resolve_knowledge_winners-Beats_example = resolve_knowledge_winners-Beats tables query
