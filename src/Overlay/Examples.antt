-- ===== src/Overlay/Examples.antt =====
-- Merged documents and a resolved configuration: tests, and the theorem there.
use eyot_ai.Prelude.{String, true, Option, none, some, ◌≡◌, refl, arith}
use eyot_ai.Json.{Value, Fields, text, obj, arr, cons, nil, field, end, get}
use eyot_ai.Overlay.{deep_merge}
use eyot_ai.Overlay.Merged.{IsDict}
use eyot_ai.Overlay.Resolve.{truth, Identity, override_of, resolve_entity_config}
use eyot_ai.Overlay.Resolved.{is_entity_key, resolve_entity_config_owned}

-- {"model": "a", "runtime": {"cpu": "1", "os": "x"}}
abbrev base : Fields
base =
    field "model" (text "a")
      (field "runtime" (obj (field "cpu" (text "1") (field "os" (text "x") end))) end)

-- {"runtime": {"cpu": "2"}, "prompt": "p"}
abbrev override : Fields
override = field "runtime" (obj (field "cpu" (text "2") end)) (field "prompt" (text "p") end)

merges :
    deep_merge base override
    ≡ field "model" (text "a") (
        field "runtime"
          (obj (field "cpu" (text "2") (field "os" (text "x") end)))
          (field "prompt" (text "p") end))
unfolding deep_merge
merges = refl

abbrev as_list : Value → Option Value
as_list v = some v

abbrev fox : Identity
fox = record {
  slug = "fox";
  name = "Fox";
  display_name = none;
  system_prompt = some "be quick";
  config_override = some (
      field "tools" (arr (cons (text "read") nil))
        (field "gene_refs" (arr (cons (text "g") nil)) end));
}

-- a base class with capabilities, which the entity does not get
abbrev manifest : Fields
manifest =
    field "default_capabilities" (arr (cons (text "shell") nil))
      (field "system_prompt" (text "be slow") (field "model" (text "m") end))

abbrev resolved : Option Fields → Option Fields
resolved m = resolve_entity_config as_list as_list fox m (cons (text "c") nil) nil

abbrev document_of : Option Fields → Fields
document_of none = end
document_of (some d) = d

no_inherited :
    get (document_of (resolved (some manifest))) "default_capabilities"
    ≡ some (arr (cons (text "c") nil))
unfolding resolve_entity_config
no_inherited = refl

own_genes :
    get (document_of (resolved (some manifest))) "default_gene_refs"
    ≡ some (arr (cons (text "g") nil))
unfolding resolve_entity_config
own_genes = refl

inherited_model : get (document_of (resolved (some manifest))) "default_model" ≡ some (text "m")
unfolding resolve_entity_config truth
inherited_model = refl

resolves : (m : Option Fields) → Fields × (resolved m ≡ some (document_of (resolved m)))
unfolding resolve_entity_config
resolves none = (end, refl)
resolves (some m) = (m, refl)

fox_keys : IsDict (override_of fox)
fox_keys = ground arith

resolve_entity_config_owned_example :
    ((k : String)
      → is_entity_key k ≡ true
      → get (document_of (resolved (some manifest))) k ≡ get (document_of (resolved none)) k)
    × ((p : String)
        → fox.system_prompt ≡ some p
        → get (override_of fox) "system_prompt" ≡ none
        → get (document_of (resolved (some manifest))) "system_prompt" ≡ some (text p))
resolve_entity_config_owned_example =
    resolve_entity_config_owned as_list as_list fox (some manifest) none (cons (text "c") nil) nil
      (document_of (resolved (some manifest))) (document_of (resolved none)) fox_keys
      (resolves (some manifest)).1 (resolves none).1
