-- ===== src/Directive/Distill.antt =====
-- Memories become capabilities of the market (core/directive_router.py, `_distill_memory_candidates`,
-- core/capabilities.py, `upsert_capability`).
use Prim.Native.Char.{code}
use Prim.Native.String
use eyot_ai.Prelude.{
  ℕ, String, Bool, true, false, Option, none, some, List, [], ◌∷◌, ◌++◌, ◌==◌, ◌&&◌, ◌||◌, leb, eqb,
  if◌then◌else◌, is_none, filter, map, take, sort, contains,
}
use eyot_ai.Text.{strip, take_chars, is_empty}
use eyot_ai.Models.{absent, several, single, one_or_none}
use eyot_ai.Directive.{Memory, Capability}

-- `[a-z0-9]`
abbrev is_alnum : ℕ → Bool
is_alnum c = (leb 97 c && leb c 122) || (leb 48 c && leb c 57)

-- `re.sub("[^a-z0-9]+", "-", s)`: `in_run` where the character before is in a run
pub sub_runs : Bool → String → String
sub_runs in_run String.[] = String.[]
sub_runs in_run (String.◌∷◌ c s) =
    let inside = sub_runs true s in
    let outside = sub_runs false s in
    if is_alnum (code c)
    then String.◌∷◌ c outside
    else if in_run
    then inside
    else String.◌++◌ "-" inside

-- `s.lstrip("-")` and `s.rstrip("-")`
pub lstrip_dash : String → String
lstrip_dash String.[] = String.[]
lstrip_dash (String.◌∷◌ c s) =
    let rest = lstrip_dash s in if eqb (code c) 45 then rest else String.◌∷◌ c s

pub rstrip_dash : String → String
rstrip_dash String.[] = String.[]
rstrip_dash (String.◌∷◌ c s) =
    let rest = rstrip_dash s in
    if eqb (code c) 45 && is_empty rest then String.[] else String.◌∷◌ c rest

-- `s.split("-")[0]`
pub before_dash : String → String
before_dash String.[] = String.[]
before_dash (String.◌∷◌ c s) =
    let rest = before_dash s in if eqb (code c) 45 then String.[] else String.◌∷◌ c rest

-- `a or b` of nullable texts
abbrev or_text : Option String → String → String
or_text none b = b
or_text (some a) b = if is_empty a then b else a

-- a capability that a memory gives
pub record Candidate : Type 0 where
  pub name : String
  pub description : String
  pub required_knowledge : Option (List String)

-- `lower` is Python's `str.lower`
module _ (lower : String → String) where
  -- `_slugify_capability_name`
  pub slugify_capability_name : String → String
  unfolding sub_runs lstrip_dash rstrip_dash
  slugify_capability_name text =
      let slug = rstrip_dash (lstrip_dash (sub_runs false (strip (lower text)))) in
      if is_empty slug then "capability" else take_chars 200 slug

  -- `_knowledge_slugs_for_memory`
  pub knowledge_slugs_for_memory : Option String → Option (List String)
  unfolding before_dash
  knowledge_slugs_for_memory none = none
  knowledge_slugs_for_memory (some key) =
      let prefix = lower (strip (before_dash key)) in
      if is_empty key then none else if is_empty prefix then none else some (prefix ∷ [])

  pub candidate_of : Memory → Candidate
  unfolding slugify_capability_name knowledge_slugs_for_memory
  candidate_of m = record {
    name = slugify_capability_name (or_text m.key (or_text m.content m.kind));
    description = take_chars 200 (or_text m.content (or_text m.key m.kind));
    required_knowledge = knowledge_slugs_for_memory m.key;
  }

  -- `_distill_memory_candidates`, with its limit of ten
  unfoldable pub distill_memory_candidates : String → List Memory → List Candidate
  unfolding candidate_of sort
  distill_memory_candidates entity_id memories = map candidate_of (
      take 10 (
        sort (λ a b. leb a.created_at b.created_at)
          (filter (λ m. (m.entity_id == entity_id) && is_none m.deleted_at) memories)))

-- `_MIRROR_TYPES`
abbrev is_mirror_type : String → Bool
is_mirror_type = contains ("skill" ∷ "tool" ∷ "mcp" ∷ "lsp" ∷ "command" ∷ [])

-- the live row of the name
abbrev pub has_name : String → Capability → Bool
has_name name c = (c.name == name) && is_none c.deleted_at

-- `upsert_capability`: the row of the name, with the market; `none` is `MultipleResultsFound`
unfoldable pub upsert_capability :
    Capability → List Capability → Option (Capability × List Capability)
upsert_capability new market = elim (one_or_none (filter (has_name new.name) market)) [
  | several ↦ none
  | single c ↦ some (c, market)
  | absent ↦
      let row = record new {
        cap_type = if is_mirror_type new.cap_type then new.cap_type else "skill";
      } in
      some (row, market ++ row ∷ [])
]

-- the arguments of `upsert_capability` for a candidate
abbrev pub distilled : Option String → String → Candidate → Capability
distilled org_id slug c = record {
  name = c.name;
  cap_type = "skill";
  scope = elim org_id [ none ↦ "system" | some o ↦ if is_empty o then "system" else "org" ];
  organization_id = org_id;
  created_via = "distill";
  description = some c.description;
  required_knowledge = c.required_knowledge;
  source_entity_slug = some slug;
  deleted_at = none;
}

-- the loop over the candidates: the names and types, with the market
unfoldable pub upsert_all :
    Option String
    → String
    → List Candidate
    → List Capability
    → Option (List (String × String) × List Capability)
unfolding upsert_capability
upsert_all org_id slug [] market = some ([], market)
upsert_all org_id slug (c ∷ candidates) market =
    elim (upsert_capability (distilled org_id slug c) market) [
      | none ↦ none
      | some (row, kept) ↦ elim (upsert_all org_id slug candidates kept) [
        | none ↦ none
        | some (created, left) ↦ some ((row.name, row.cap_type) ∷ created, left)
      ]
    ]
