-- ===== src/Access/Scope.antt =====
-- Scoped rows: core/org_scope.py (`validate_scope_fks`, `scoped_visibility_clause`) and
-- core/scope_guard.py.
pub mod Matrix
pub mod Isolation
use eyot_ai.Prelude.{
  String, Bool, true, false, not, ◌&&◌, ◌||◌, Option, none, some, ◌==◌, is_none, opt_is,
  if◌then◌else◌,
}
use eyot_ai.Access.Tables.{
  Result, ok, error, scope_invalid, fk_mismatch, organization_required, namespace_required,
  workspace_ids_required, scope_organization_mismatch, system_create_forbidden, system_readonly,
}
use eyot_ai.Access.Permissions.{differs}

-- `VALID_SCOPES`
unfoldable pub is_valid_scope : String → Bool
is_valid_scope s = s == "system" || s == "org" || s == "namespace" || s == "workspace"

-- the fallback to `current_org_id`
unfoldable pub with_current_org : String → Option String → Option String → Option String
with_current_org scope org current =
    if (scope == "org" || scope == "namespace") && is_none org && not (is_none current)
    then current
    else org

abbrev pub Ids : Type 0
Ids = Option String × Option String × Option String

pub check_system : Option String → Option String → Option String → Result Ids
check_system org ns ws =
    if not (is_none org) || not (is_none ns) || not (is_none ws)
    then error fk_mismatch
    else ok (none, none, none)

pub check_org : Option String → Option String → Option String → Option String → Result Ids
check_org org ns ws current =
    if is_none org
    then error organization_required
    else if not (is_none ns) || not (is_none ws)
    then error fk_mismatch
    else if differs current org
    then error scope_organization_mismatch
    else ok (org, none, none)

pub check_workspace : Option String → Option String → Option String → Option String → Result Ids
check_workspace org ns ws current =
    if is_none org || is_none ns || is_none ws
    then error workspace_ids_required
    else if differs current org
    then error scope_organization_mismatch
    else ok (org, ns, ws)

unfoldable pub check_namespace :
    Option String → Option String → Option String → Option String → Result Ids
check_namespace org ns ws current =
    if is_none org
    then error organization_required
    else if is_none ns
    then error namespace_required
    else if not (is_none ws)
    then error fk_mismatch
    else if differs current org
    then error scope_organization_mismatch
    else ok (org, ns, none)

unfoldable pub validate_scope_fks :
    String → Option String → Option String → Option String → Option String → Result Ids
unfolding is_valid_scope with_current_org check_system check_org check_workspace check_namespace
validate_scope_fks scope org ns ws current =
    let org' = with_current_org scope org current in
    if not (is_valid_scope scope)
    then error scope_invalid
    else if scope == "system"
    then check_system org' ns ws
    else if scope == "org"
    then check_org org' ns ws current
    else if scope == "workspace"
    then check_workspace org' ns ws current
    else check_namespace org' ns ws current

-- the columns of a scoped row that the visibility filter reads
pub record ScopedRow : Type 0 where
  pub scope : String
  pub organization_id : Option String

-- `visibility`; a comparison with NULL is not true
pub is_visible : Option String → Bool → ScopedRow → Bool
is_visible none include_workspace r = r.scope == "system"
is_visible (some org) include_workspace r =
    r.scope == "system"
    || (r.scope == "org" && opt_is r.organization_id org)
    || (r.scope == "namespace" && opt_is r.organization_id org)
    || (include_workspace && r.scope == "workspace" && opt_is r.organization_id org)

-- the filter as the test of a row
pub scoped_visibility_clause : Option String → Option String → Bool → Result (ScopedRow → Bool)
unfolding is_visible is_valid_scope
scoped_visibility_clause org none include_workspace = ok (is_visible org include_workspace)
scoped_visibility_clause org (some scope) include_workspace =
    if not (is_valid_scope scope)
    then error scope_invalid
    else ok (λ r. is_visible org include_workspace r && r.scope == scope)

unfoldable pub ensure_scope_create_allowed : String → Result Unit
ensure_scope_create_allowed scope =
    if scope == "system" then error system_create_forbidden else ok tt

pub ensure_scope_mutable : String → Result Unit
ensure_scope_mutable current_scope =
    if current_scope == "system" then error system_readonly else ok tt
