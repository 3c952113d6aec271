-- ===== src/Access/Tables.antt =====
-- The rows that the access checks read: models/workspace.py, organization.py, user.py, user_gene.py,
-- organization_contract.py and namespace_contract.py. `session.get` reads by primary key.
use eyot_ai.Prelude.{ℕ, String, Bool, Option, List, ◌==◌, find}

pub record Workspace : Type 0 where
  pub id : String
  pub namespace_id : String
  pub deleted_at : Option ℕ

pub record Namespace : Type 0 where
  pub id : String
  pub org_id : String
  pub deleted_at : Option ℕ

pub record Organization : Type 0 where
  pub id : String
  pub deleted_at : Option ℕ

pub record User : Type 0 where
  pub id : String
  pub is_super_admin : Bool
  pub deleted_at : Option ℕ

-- `OrganizationContract` and `NamespaceContract`: `owner` is `organization_id` in the one and
-- `namespace_id` in the other
pub record Contract : Type 0 where
  pub id : String
  pub owner : String
  pub user_id : String
  pub deleted_at : Option ℕ

-- `OrganizationContractGene` and `NamespaceContractGene`
pub record ContractGene : Type 0 where
  pub id : String
  pub contract_id : String
  pub user_gene_id : String
  pub deleted_at : Option ℕ

pub record UserGene : Type 0 where
  pub id : String
  pub slug : String
  pub deleted_at : Option ℕ

pub record Tables : Type 0 where
  pub workspaces : List Workspace
  pub namespaces : List Namespace
  pub organizations : List Organization
  pub users : List User
  pub organization_contracts : List Contract
  pub organization_contract_genes : List ContractGene
  pub namespace_contracts : List Contract
  pub namespace_contract_genes : List ContractGene
  pub user_genes : List UserGene

-- `EyotError`, by the codes that the access checks raise
pub data AccessError : Type 0 where
  workspace_not_found namespace_not_found organization_not_found : AccessError
  organization_mismatch user_not_found permission_denied super_admin_required : AccessError
  not_a_member scope_invalid fk_mismatch organization_required namespace_required : AccessError
  workspace_ids_required scope_organization_mismatch system_create_forbidden : AccessError
  system_readonly : AccessError

pub data Result (A : Type 0) : Type 0 where
  ok : A → Result A
  error : AccessError → Result A

abbrev pub get_workspace : Tables → String → Option Workspace
get_workspace t id = find (λ w. w.id == id) t.workspaces

abbrev pub get_namespace : Tables → String → Option Namespace
get_namespace t id = find (λ n. n.id == id) t.namespaces

abbrev pub get_organization : Tables → String → Option Organization
get_organization t id = find (λ o. o.id == id) t.organizations

abbrev pub get_user : Tables → String → Option User
get_user t id = find (λ u. u.id == id) t.users
