-- ===== src/Access/CurrentOrg.antt =====
-- core/org_scope.py: `resolve_current_org_id`.
pub mod Resolved
pub mod Header
use eyot_ai.Prelude.{
  String, Bool, not, ◌&&◌, Option, none, some, List, [], ◌∷◌, ◌==◌, is_none, if◌then◌else◌, any,
  filter, map, contains,
}
use eyot_ai.Access.Tables.{
  Organization, User, Contract, ContractGene, Tables, Result, ok, error, organization_not_found,
  user_not_found, not_a_member, get_organization, get_user,
}

-- the live contract of the user with the organization
abbrev pub is_member_contract : String → String → Contract → Bool
is_member_contract user org c = (c.user_id == user) && (c.owner == org) && is_none c.deleted_at

-- the query of the contract: an index keeps at most one
pub has_contract : Tables → String → String → Bool
has_contract t user org = any (is_member_contract user org) t.organization_contracts

-- the query of an atom: a live link of such a contract
pub has_atom : Tables → String → String → Bool
has_atom t user org =
    any
      (λ l.
        is_none l.deleted_at
        && any (λ c. (c.id == l.contract_id) && is_member_contract user org c)
            t.organization_contracts)
      t.organization_contract_genes

pub check_member : Tables → String → Organization → User → Result (Option String)
unfolding has_contract has_atom
check_member t user org u =
    if u.is_super_admin
    then ok (some org.id)
    else if not (has_contract t user org.id)
    then error not_a_member
    else if not (has_atom t user org.id)
    then error not_a_member
    else ok (some org.id)

-- `SELECT DISTINCT`
unfoldable pub distinct : List String → List String
distinct [] = []
distinct (x ∷ xs) = let rest = distinct xs in if contains rest x then rest else x ∷ rest

-- the organizations of the user's live contracts
unfoldable pub org_ids : Tables → String → List String
unfolding distinct
org_ids t user = distinct (
    map (λ c. c.owner)
      (filter (λ c. (c.user_id == user) && is_none c.deleted_at) t.organization_contracts))

unfoldable pub only_one : List String → Option String
only_one (o ∷ []) = some o
only_one _ = none

unfoldable pub resolve_current_org_id : Tables → String → Option String → Result (Option String)
unfolding check_member org_ids only_one
resolve_current_org_id t user none = ok (only_one (org_ids t user))
resolve_current_org_id t user (some header) = elim (get_organization t header) [
  | none ↦ error organization_not_found
  | some org ↦
      if not (is_none org.deleted_at)
      then error organization_not_found
      else elim (get_user t user) [
        | none ↦ error user_not_found
        | some u ↦
            if not (is_none u.deleted_at) then error user_not_found else check_member t user org u
      ]
]
