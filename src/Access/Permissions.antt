-- ===== src/Access/Permissions.antt =====
-- core/permissions.py.
pub mod Grants
pub mod Required
use eyot_ai.Prelude.{
  String, Bool, true, false, not, ◌&&◌, Option, none, some, List, [], ◌∷◌, ◌++◌, ◌==◌, is_none,
  if◌then◌else◌, contains, filter, map,
}
use eyot_ai.Access.Tables.{
  Workspace, Namespace, User, Contract, ContractGene, UserGene, Tables, AccessError, Result, ok,
  error, workspace_not_found, namespace_not_found, organization_mismatch, user_not_found,
  permission_denied, super_admin_required, get_workspace, get_namespace, get_user,
}

-- the namespace of the resource: the one given, else the workspace's
unfoldable pub resolve_ns : Tables → Option String → Option String → Result (Option String)
resolve_ns t ns none = ok ns
resolve_ns t ns (some ws) = elim (get_workspace t ws) [
  | none ↦ error workspace_not_found
  | some w ↦
      if not (is_none w.deleted_at)
      then error workspace_not_found
      else elim ns [ none ↦ ok (some w.namespace_id) | some n ↦ ok (some n) ]
]

-- `resource_org_id`
unfoldable pub resolve_resource_org : Tables → Option String → Result (Option String)
resolve_resource_org t none = ok none
resolve_resource_org t (some ns) = elim (get_namespace t ns) [
  | none ↦ error namespace_not_found
  | some n ↦ if not (is_none n.deleted_at) then error namespace_not_found else ok (some n.org_id)
]

-- `a or b`: an empty text is false
abbrev pub or_else : Option String → Option String → Option String
or_else none b = b
or_else (some s) b = if s == "" then b else some s

-- `organization_id is not None and resource_org_id is not None and organization_id != resource_org_id`
abbrev pub differs : Option String → Option String → Bool
differs none r = false
differs (some o) none = false
differs (some o) (some r) = not (o == r)

-- the consistency check and the return of `_resolve_org_ns`
unfoldable pub match_org :
    Option String → Option String → Option String → Result (Option String × Option String)
match_org org ns resource =
    if differs org resource then error organization_mismatch else ok (or_else resource org, ns)

-- `_resolve_org_ns`
unfoldable pub resolve_org_ns :
    Tables → Option String → Option String → Option String → Result (Option String × Option String)
unfolding resolve_ns resolve_resource_org match_org
resolve_org_ns t org ns ws = elim (resolve_ns t ns ws) [
  | error e ↦ error e
  | ok ns' ↦ elim (resolve_resource_org t ns') [
    | error e ↦ error e
    | ok resource ↦ match_org org ns' resource
  ]
]

-- the genes of the rows that link a contract to them
unfoldable pub gene_slugs : List UserGene → String → List String
gene_slugs genes id = map (λ u. u.slug) (filter (λ u. (u.id == id) && is_none u.deleted_at) genes)

unfoldable pub linked_slugs : List UserGene → List ContractGene → String → List String
unfolding gene_slugs
linked_slugs genes [] contract = []
linked_slugs genes (l ∷ links) contract =
    let rest = linked_slugs genes links contract in
    if (l.contract_id == contract) && is_none l.deleted_at
    then gene_slugs genes l.user_gene_id ++ rest
    else rest

-- the join of the contracts that pass the test with their genes
unfoldable pub contract_slugs :
    List UserGene → List ContractGene → (Contract → Bool) → List Contract → List String
unfolding linked_slugs
contract_slugs genes links p [] = []
contract_slugs genes links p (c ∷ contracts) =
    let rest = contract_slugs genes links p contracts in
    if p c && is_none c.deleted_at then linked_slugs genes links c.id ++ rest else rest

-- the contracts of a user with an owner
abbrev pub is_grant : String → String → Contract → Bool
is_grant owner user c = (c.owner == owner) && (c.user_id == user)

-- `list_grant_slugs`; a set is the list of its members here, tested by `contains`
unfoldable pub list_grant_slugs : Tables → String → Option String → Option String → List String
unfolding contract_slugs
list_grant_slugs t user org ns =
    elim org [
      | none ↦ []
      | some o ↦
          contract_slugs t.user_genes t.organization_contract_genes (is_grant o user)
            t.organization_contracts
    ]
    ++ elim ns [
      | none ↦ []
      | some n ↦
          contract_slugs t.user_genes t.namespace_contract_genes (is_grant n user)
            t.namespace_contracts
    ]

pub list_user_grant_slugs : Tables → String → List String
unfolding contract_slugs
list_user_grant_slugs t user =
    contract_slugs t.user_genes t.organization_contract_genes (λ c. c.user_id == user)
      t.organization_contracts
    ++ contract_slugs t.user_genes t.namespace_contract_genes (λ c. c.user_id == user)
        t.namespace_contracts

-- the end of `require_permission`
unfoldable pub check_grant :
    Tables → String → String → Result (Option String × Option String) → Result Unit
unfolding list_grant_slugs
check_grant t user key (error e) = error e
check_grant t user key (ok (org, ns)) =
    if contains (list_grant_slugs t user org ns) key then ok tt else error permission_denied

unfoldable pub require_permission :
    Tables → String → String → Option String → Option String → Option String → Result Unit
unfolding resolve_org_ns check_grant
require_permission t user key org ns ws = elim (get_user t user) [
  | none ↦ error user_not_found
  | some u ↦
      if not (is_none u.deleted_at)
      then error user_not_found
      else if u.is_super_admin
      then ok tt
      else check_grant t user key (resolve_org_ns t org ns ws)
]

unfoldable pub require_workspace_permission :
    Tables → String → String → String → Option String → Result Unit
unfolding require_permission
require_workspace_permission t user ws key header =
    require_permission t user key header none (some ws)

pub require_super_admin : Bool → Result Unit
require_super_admin is_super_admin =
    if not is_super_admin then error super_admin_required else ok tt
