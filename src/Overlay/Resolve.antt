-- ===== src/Overlay/Resolve.antt =====
-- The configuration of an entity over its base class (core/overlay.py, core/preset_aliases.py).
use eyot_ai.Prelude.{
  String, Bool, true, false, not, Option, none, some, List, [], ◌∷◌, if◌then◌else◌, contains, eqb,
}
use eyot_ai.Text.{is_empty}
use eyot_ai.Json.{
  Value, Fields, Items, null, boolean, num, seconds, text, obj, arr, nil, cons, field, end, get,
  put, opt_text,
}
use eyot_ai.Overlay.{deep_merge}

-- `bool(v)`
unfoldable pub truth : Value → Bool
truth null = false
truth (boolean b) = b
truth (num n) = not (eqb n 0)
truth (seconds n) = not (eqb n 0)
truth (text s) = not (is_empty s)
truth (obj end) = false
truth (obj (field k v d)) = true
truth (arr nil) = false
truth (arr (cons v l)) = true

-- `d.get(k) or default`
pub get_or : Fields → String → Value → Value
unfolding truth
get_or d k default = elim (get d k) [ none ↦ default | some v ↦ if truth v then v else default ]

-- `Entity`, by the columns that the overlay reads
pub record Identity : Type 0 where
  pub slug : String
  pub name : String
  pub display_name : Option String
  pub system_prompt : Option String
  pub config_override : Option Fields

-- `cap_keys`
abbrev pub is_cap_key : String → Bool
is_cap_key = contains (
    "default_capabilities" ∷ "capabilities" ∷ "default_gene_refs" ∷ "gene_refs" ∷ "installed_genes"
    ∷ [])

-- the override without these keys
unfoldable pub merge_overlay : Fields → Fields
merge_overlay end = end
merge_overlay (field k v d) =
    let rest = merge_overlay d in if is_cap_key k then rest else field k v rest

-- the entry, if it is a list
abbrev pub list_at : Fields → String → Option Items
list_at d k = elim (get d k) [ some (arr l) ↦ some l | _ ↦ none ]

-- the list of the first key that has one
abbrev pub first_list : Fields → List String → Items → Items
first_list d [] default = default
first_list d (k ∷ keys) default =
    let rest = first_list d keys default in elim (list_at d k) [ none ↦ rest | some l ↦ l ]

-- `entity.display_name or entity.name`
abbrev shown_name : Identity → String
shown_name e = elim e.display_name [ none ↦ e.name | some n ↦ if is_empty n then e.name else n ]

-- `dict(entity.config_override or {})`
abbrev pub override_of : Identity → Fields
override_of e = elim e.config_override [ none ↦ end | some d ↦ d ]

-- the prompt of the entity, where it has one
abbrev pub prompted : Identity → Fields → Fields
prompted e template = elim e.system_prompt [
  | none ↦ template
  | some p ↦ put template "system_prompt" (text p)
]

-- what `resolve_entity_config` writes behind the merge, in its order
abbrev pub own_entries : Identity → Items → Items → List (String × Value)
own_entries e capabilities gene_refs =
    let override = override_of e in
    (
      "default_capabilities",
      arr (first_list override ("default_capabilities" ∷ "capabilities" ∷ []) capabilities),
    )
    ∷ (
      "default_gene_refs",
      arr (
          first_list override ("default_gene_refs" ∷ "gene_refs" ∷ "installed_genes" ∷ [])
            gene_refs),
    )
    ∷ ("entity_slug", text e.slug)
    ∷ ("entity_name", text (shown_name e))
    ∷ ("entity_role_prompt", opt_text e.system_prompt)
    ∷ []

abbrev pub put_all : Fields → List (String × Value) → Fields
put_all d [] = d
put_all d ((k, v) ∷ l) = put_all (put d k v) l

-- the steps of `resolve_entity_config` on the template; a merge with nothing changes nothing
unfoldable pub overlaid : Identity → Items → Items → Fields → Fields
unfolding merge_overlay deep_merge
overlaid e capabilities gene_refs template =
    put_all (deep_merge (prompted e template) (merge_overlay (override_of e)))
      (own_entries e capabilities gene_refs)

-- `list` and `dict` are Python's, and `none` is their exception
module _ (list dict : Value → Option Value) where
  -- the document that `_manifest_template_subset` returns, from the values that can raise
  abbrev template_of : Fields → Value → Value → Value → Fields
  template_of m commands tools runtime =
      let prompt = get_or m "system_prompt" (get_or m "prompt" (text "")) in
      field "provider_config" (get_or m "provider_config" (obj end)) (
        field "default_model" (get_or m "default_model" (get_or m "model" (text "tbd"))) (
          field "commands" commands (
            field "system_prompt" prompt (
              field "tools" tools (
                field "runtime_config" runtime (
                  field "subagent_strategy" (get_or m "subagent_strategy" (obj end)) (
                    field "baseclass_template_prompt" prompt (
                      field "baseclass_operating_form"
                        (get_or m "operating_form" (get_or m "description" (text ""))) end))))))))

  -- `_manifest_template_subset`
  pub manifest_template_subset : Fields → Option Fields
  unfolding get_or
  manifest_template_subset m = elim (list (get_or m "commands" (arr nil))) [
    | none ↦ none
    | some commands ↦ elim (list (get_or m "tools" (arr nil))) [
      | none ↦ none
      | some tools ↦ elim (dict (get_or m "runtime_config" (obj end))) [
        | none ↦ none
        | some runtime ↦ some (template_of m commands tools runtime)
      ]
    ]
  ]

  -- `resolve_entity_config`; a manifest that is not there is the empty one
  unfoldable pub resolve_entity_config : Identity → Option Fields → Items → Items → Option Fields
  unfolding manifest_template_subset overlaid
  resolve_entity_config e manifest capabilities gene_refs =
      let base : Fields = elim manifest [ none ↦ end | some m ↦ m ] in
      elim (manifest_template_subset base) [
        | none ↦ none
        | some template ↦ some (overlaid e capabilities gene_refs template)
      ]
