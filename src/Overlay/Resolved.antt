-- ===== src/Overlay/Resolved.antt =====
-- What an entity's configuration takes from its base class (core/overlay.py,
-- `resolve_entity_config`).
use eyot_ai.Prelude.{
  String, ◌≡◌, inl, inr, refl, sym, ap, ◌∙◌, Bool, true, false, Option, none, some, List, [], ◌∷◌,
  ◌==◌, arith, Bool-cases, Option-cases, map, contains,
}
use eyot_ai.Json.{Value, Fields, Items, text, field, end, get, put, get-put}
use eyot_ai.Overlay.{deep_merge}
use eyot_ai.Overlay.Merged.{IsDict, merged, deep_merge-get}
use eyot_ai.Overlay.Resolve.{
  Identity, is_cap_key, merge_overlay, override_of, manifest_template_subset, own_entries, put_all,
  prompted, overlaid, resolve_entity_config,
}

-- the keys that the entity alone decides
abbrev pub is_entity_key : String → Bool
is_entity_key = contains (
    "default_capabilities" ∷ "default_gene_refs" ∷ "entity_slug" ∷ "entity_name"
    ∷ "entity_role_prompt" ∷ [])

-- the same writes make two documents agree at their keys, and leave the others alone
put_all-agree :
    (l : List (String × Value)) (d d' : Fields) (k : String)
    → (contains (map (λ p. p.0) l) k ≡ false → get d k ≡ get d' k)
    → get (put_all d l) k ≡ get (put_all d' l) k
put_all-agree [] d d' k h = h refl
put_all-agree ((j, v) ∷ l) d d' k h =
    put_all-agree l (put d j v) (put d' j v) k
      (λ rest. ground (arith, get-put d j k v, get-put d' j k v, rest, h))

put_all-other :
    (l : List (String × Value)) (d : Fields) (k : String)
    → contains (map (λ p. p.0) l) k ≡ false
    → get (put_all d l) k ≡ get d k
put_all-other [] d k h = refl
put_all-other ((j, v) ∷ l) d k h =
    put_all-other l (put d j v) k (ground arith) ∙ ground (arith, get-put d j k v, h)

-- a key that the override has not
merge_overlay-none : (d : Fields) (k : String) → get d k ≡ none → get (merge_overlay d) k ≡ none
unfolding merge_overlay
merge_overlay-none end k h = refl
merge_overlay-none (field i v d) k h = elim (Bool-cases (i == k)) [
  | inl s ↦ absurd (cc (rw s at h))
  | inr f ↦
      let rest = merge_overlay-none d k (rw f at h) in
      elim (Bool-cases (is_cap_key i)) [ inl c ↦ rw c rest | inr c ↦ rw c (rw f rest) ]
]

merge_overlay-IsDict : (d : Fields) → IsDict d → IsDict (merge_overlay d)
unfolding merge_overlay
merge_overlay-IsDict end h = tt
merge_overlay-IsDict (field k v d) (fresh, h) = elim (Bool-cases (is_cap_key k)) [
  | inl cap ↦ rw cap (merge_overlay-IsDict d h)
  | inr plain ↦ rw plain (merge_overlay-none d k fresh, merge_overlay-IsDict d h)
]

prompted_own :
    (e : Identity) (template : Fields) (p : String)
    → e.system_prompt ≡ some p
    → get (prompted e template) "system_prompt" ≡ some (text p)
prompted_own e template p own = rw own (get-put template "system_prompt" "system_prompt" (text p))

module _ (list dict : Value → Option Value) where
  resolved_template :
      (e : Identity) (m : Option Fields) (capabilities gene_refs : Items) (r : Fields)
      → resolve_entity_config list dict e m capabilities gene_refs ≡ some r
      → (template : Fields) × (overlaid e capabilities gene_refs template ≡ r)
  unfolding resolve_entity_config
  resolved_template e m capabilities gene_refs r x =
      elim (Option-cases
        (manifest_template_subset list dict (elim m [ none ↦ end | some f ↦ f ]))) [
          | inl failed ↦ absurd (cc (rw (failed, resolve_entity_config) at x))
          | inr (template, found) ↦ (template, cc (rw (found, resolve_entity_config) at x))
        ]

  -- Where the configuration of an entity is resolved over two base classes, the two have the same
  -- capabilities, gene references, slug, name and role prompt; and an entity with a prompt of its own
  -- has it as the system prompt, unless its override, which has no key twice, has that key.
  pub resolve_entity_config_owned :
      (e : Identity) (m m' : Option Fields) (capabilities gene_refs : Items) (r r' : Fields)
      → IsDict (override_of e)
      → resolve_entity_config list dict e m capabilities gene_refs ≡ some r
      → resolve_entity_config list dict e m' capabilities gene_refs ≡ some r'
      → ((k : String) → is_entity_key k ≡ true → get r k ≡ get r' k)
        × ((p : String)
            → e.system_prompt ≡ some p
            → get (override_of e) "system_prompt" ≡ none
            → get r "system_prompt" ≡ some (text p))
  unfolding overlaid
  resolve_entity_config_owned e m m' capabilities gene_refs r r' h x y =
      let (template, there) = resolved_template e m capabilities gene_refs r x in
      let (template', there') = resolved_template e m' capabilities gene_refs r' y in
      let entries = own_entries e capabilities gene_refs in
      let merge : Fields → Fields =
        λ base. deep_merge (prompted e base) (merge_overlay (override_of e)) in
      (
        λ k own.
            ap (λ d. get d k) (sym there)
            ∙ put_all-agree entries (merge template) (merge template') k
                (λ no_key. absurd (cc (sym no_key ∙ own)))
            ∙ ap (λ d. get d k) there',
        λ p own free.
            let overlay = merge_overlay (override_of e) in
            ap (λ d. get d "system_prompt") (sym there)
            ∙ put_all-other entries (merge template) "system_prompt" refl
            ∙ deep_merge-get (prompted e template) overlay "system_prompt"
                (merge_overlay-IsDict (override_of e) h)
            ∙ ap (merged (get (prompted e template) "system_prompt"))
                (merge_overlay-none (override_of e) "system_prompt" free)
            ∙ prompted_own e template p own,
      )
