-- ===== src/Access/Examples.antt =====
-- The access checks at concrete tables: tests, and the theorems there.
use eyot_ai.Prelude.{
  String, ◌≡◌, ◌≢◌, ◌↔◌, ◌⊎◌, inl, inr, refl, Bool, true, false, Option, none, some, [], ◌∷◌,
  contains, In, is_none, eq_iff, arith, sym, ap, ◌∙◌, ◌==◌,
}
use eyot_ai.Access.Tables.{
  Namespace, Organization, User, Contract, Tables, ok, error, organization_mismatch,
  get_organization, get_user,
}
use eyot_ai.Access.Permissions.{
  resolve_ns, resolve_resource_org, match_org, resolve_org_ns, gene_slugs, linked_slugs,
  contract_slugs, list_grant_slugs, list_user_grant_slugs, check_grant, require_permission,
  require_workspace_permission,
}
use eyot_ai.Access.Permissions.Grants.{OrgGrant, NamespaceGrant, list_user_grant_slugs-any_grant}
use eyot_ai.Access.Permissions.Required.{MayUse, require_workspace_permission-MayUse}
use eyot_ai.Access.Scope.{
  ScopedRow, is_visible, is_valid_scope, with_current_org, check_namespace, validate_scope_fks,
  scoped_visibility_clause, ensure_scope_create_allowed,
}
use eyot_ai.Access.Scope.Matrix.{Matrix, Chosen, OfCurrent, validate_scope_fks-Matrix}
use eyot_ai.Access.Scope.Isolation.{created_row-isolated}
use eyot_ai.Access.CurrentOrg.{distinct, org_ids, only_one, resolve_current_org_id}
use eyot_ai.Access.CurrentOrg.Resolved.{Signed, resolve_current_org_id-no_header}
use eyot_ai.Access.CurrentOrg.Header.{HasAtom, resolve_current_org_id-header}

abbrev user_ann : User
user_ann = record { id = "ann"; is_super_admin = false; deleted_at = none }

abbrev contract_ann : Contract
contract_ann = record { id = "c"; owner = "o"; user_id = "ann"; deleted_at = none }

-- one workspace in one namespace of one organization, and a contract of ann with one atom
abbrev tables : Tables
tables = record {
  workspaces = record { id = "w"; namespace_id = "n"; deleted_at = none } ∷ [];
  namespaces = record { id = "n"; org_id = "o"; deleted_at = none } ∷ [];
  organizations = record { id = "o"; deleted_at = none } ∷ [];
  users = user_ann ∷ [];
  organization_contracts = contract_ann ∷ [];
  organization_contract_genes =
      record { id = "l"; contract_id = "c"; user_gene_id = "g"; deleted_at = none } ∷ [];
  namespace_contracts = [];
  namespace_contract_genes = [];
  user_genes = record { id = "g"; slug = "can_edit"; deleted_at = none } ∷ [];
}

all_named : (n : Namespace) → In n tables.namespaces → n.org_id ≢ ""
all_named n (inl e) f =
    let same : "o" ≡ n.org_id = sym (ap (λ x. x.org_id) e) in
    let t : ("o" == "") ≡ true = (eq_iff "o" "").1 (same ∙ f) in ground arith
all_named n (inr m) f = elim m [ ]

abbrev id_o : String
id_o = "o"

abbrev some_n : Option String
some_n = some "n"

abbrev no_id : Option String
no_id = none

permitted : require_workspace_permission tables "ann" "w" "can_edit" none ≡ ok tt
unfolding require_workspace_permission require_permission check_grant resolve_org_ns resolve_ns
    resolve_resource_org match_org list_grant_slugs contract_slugs linked_slugs gene_slugs
permitted = refl

wrong_header :
    require_workspace_permission tables "ann" "w" "can_edit" (some "x")
    ≡ error organization_mismatch
unfolding require_workspace_permission require_permission check_grant resolve_org_ns resolve_ns
    resolve_resource_org match_org
wrong_header = refl

require_workspace_permission-MayUse_example :
    (require_workspace_permission tables "ann" "w" "can_edit" none ≡ ok tt) ↔ (
      (u : User) × ((get_user tables "ann" ≡ some u) × (is_none u.deleted_at ≡ true))
      × ((u.is_super_admin ≡ true) ⊎ MayUse tables "ann" "w" "can_edit" none))
require_workspace_permission-MayUse_example =
    require_workspace_permission-MayUse tables "ann" "w" "can_edit" none all_named

list_user_grant_slugs-any_grant_example :
    (contains (list_user_grant_slugs tables "ann") "can_edit" ≡ true) ↔ (
      ((org : String) × OrgGrant tables "ann" org "can_edit")
      ⊎ ((ns : String) × NamespaceGrant tables "ann" ns "can_edit"))
list_user_grant_slugs-any_grant_example = list_user_grant_slugs-any_grant tables "ann" "can_edit"

filled_in :
    validate_scope_fks "namespace" none (some "n") none (some "o") ≡ ok (some "o", some "n", none)
unfolding validate_scope_fks is_valid_scope with_current_org check_namespace
filled_in = refl

may_create : ensure_scope_create_allowed "namespace" ≡ ok tt
unfolding ensure_scope_create_allowed
may_create = refl

validate_scope_fks-Matrix_example :
    (validate_scope_fks "namespace" none (some "n") none (some "o") ≡ ok (some "o", some "n", none))
    ↔ (Matrix "namespace" (some "o") (some "n") none
        × ((some_n ≡ some_n) × (no_id ≡ no_id))
        × Chosen "namespace" none (some "o") (some "o")
        × OfCurrent (some "o") (some "o"))
validate_scope_fks-Matrix_example =
    validate_scope_fks-Matrix "namespace" none (some "n") none (some "o") (some "o") (some "n") none

created_row-isolated_example :
    let row : ScopedRow = record { scope = "namespace"; organization_id = some "o" } in
    (is_visible (some "o") true row ≡ true)
    × ((viewer filter : Option String) (include_workspace : Bool) (p : ScopedRow → Bool)
        → scoped_visibility_clause viewer filter include_workspace ≡ ok p
        → p row ≡ true
        → viewer ≡ some "o")
created_row-isolated_example =
    created_row-isolated "namespace" "o" none (some "n") none (some "o") (some "n") none may_create
      filled_in

headerless : resolve_current_org_id tables "ann" none ≡ ok (some "o")
unfolding resolve_current_org_id org_ids distinct only_one
headerless = refl

resolve_current_org_id-no_header_example :
    ((resolve_current_org_id tables "ann" none ≡ ok none)
      ⊎ ((given : String) × (resolve_current_org_id tables "ann" none ≡ ok (some given))))
    × ((resolve_current_org_id tables "ann" none ≡ ok (some "o")) ↔ (
        Signed "ann" "o" tables.organization_contracts
        × ((other : String) → Signed "ann" other tables.organization_contracts → other ≡ "o")))
resolve_current_org_id-no_header_example = resolve_current_org_id-no_header tables "ann" "o"

resolve_current_org_id-header_example :
    (resolve_current_org_id tables "ann" (some "o") ≡ ok (some "o")) ↔ (
      (id_o ≡ "o")
      × ((org : Organization) × (get_organization tables "o" ≡ some org)
          × (is_none org.deleted_at ≡ true))
      × ((u : User) × (get_user tables "ann" ≡ some u)
          × (is_none u.deleted_at ≡ true)
          × ((u.is_super_admin ≡ true) ⊎ HasAtom "ann" "o" tables)))
resolve_current_org_id-header_example = resolve_current_org_id-header tables "ann" "o" "o"

-- The same contract without an atom: the fallback gives the organization, the header does not.
abbrev without_atom : Tables
without_atom = record tables { organization_contract_genes = [] }

headerless_without_atom : resolve_current_org_id without_atom "ann" none ≡ ok (some "o")
unfolding resolve_current_org_id org_ids distinct only_one
headerless_without_atom = refl
