-- ===== src/Access/CurrentOrg/Header.antt =====
-- When a header gives a caller its organization (core/org_scope.py, `resolve_current_org_id`).
use eyot_ai.Prelude.{
  String, ◌≡◌, ◌↔◌, ◌⊎◌, inl, inr, sym, ◌∙◌, subst, Bool, true, ◌&&◌, some, ◌==◌, eq_iff, arith,
  is_none, any, In, Bool-cases, Option-cases, eq→path, &&-true, any-In, In-any, find-In,
}
use eyot_ai.Access.Tables.{
  Organization, User, Contract, ContractGene, Tables, ok, get_organization, get_user,
}
use eyot_ai.Access.CurrentOrg.{
  is_member_contract, has_contract, has_atom, check_member, resolve_current_org_id,
}

-- a live link to a live contract of the user with the organization
abbrev pub HasAtom : String → String → Tables → Type 0
HasAtom user org t =
    (l : ContractGene) × In l t.organization_contract_genes
    × (is_none l.deleted_at ≡ true)
    × ((c : Contract) × In c t.organization_contracts
        × (c.id ≡ l.contract_id)
        × ((c.user_id ≡ user) × (c.owner ≡ org) × (is_none c.deleted_at ≡ true)))

-- the tests of the two queries, at one row each
member : String → String → String → Contract → Bool
member user org contract c = (c.id == contract) && is_member_contract user org c

linked : Tables → String → String → ContractGene → Bool
linked t user org l =
    is_none l.deleted_at && any (member user org l.contract_id) t.organization_contracts

has_atom-HasAtom :
    (t : Tables) (user org : String) → has_atom t user org ≡ true → HasAtom user org t
unfolding has_atom linked member
has_atom-HasAtom t user org h =
    let (l, m, e) = any-In (linked t user org) t.organization_contract_genes h in
    let (live, found) =
      &&-true (is_none l.deleted_at) (any (member user org l.contract_id) t.organization_contracts)
        e in
    let (c, n, f) = any-In (member user org l.contract_id) t.organization_contracts found in
    (
      l,
      m,
      live,
      (
        c,
        n,
        eq→path c.id l.contract_id (ground arith),
        (eq→path c.user_id user (ground arith), eq→path c.owner org (ground arith), ground arith),
      ),
    )

HasAtom-has_atom :
    (t : Tables) (user org : String) → HasAtom user org t → has_atom t user org ≡ true
unfolding has_atom linked member
HasAtom-has_atom t user org (l, m, live, (c, n, i, (u, o, d))) =
    let at : member user org l.contract_id c ≡ true =
      ground (arith, eq_iff c.id l.contract_id, eq_iff c.user_id user, eq_iff c.owner org) in
    let found = In-any (member user org l.contract_id) t.organization_contracts c n at in
    let here : linked t user org l ≡ true = ground arith in
    In-any (linked t user org) t.organization_contract_genes l m here

HasAtom-has_contract :
    (t : Tables) (user org : String) → HasAtom user org t → has_contract t user org ≡ true
unfolding has_contract
HasAtom-has_contract t user org (l, m, live, (c, n, i, (u, o, d))) =
    let at : is_member_contract user org c ≡ true =
      ground (arith, eq_iff c.user_id user, eq_iff c.owner org) in
    In-any (is_member_contract user org) t.organization_contracts c n at

check_member-ok :
    (t : Tables) (user o : String) (org : Organization) (u : User)
    → (check_member t user org u ≡ ok (some o))
      ↔ ((o ≡ org.id) × ((u.is_super_admin ≡ true) ⊎ HasAtom user org.id t))
unfolding check_member
check_member-ok t user o org u = (
  λ h. (
    ground arith,
    elim (Bool-cases u.is_super_admin) [
      | inl s ↦ inl s
      | inr s ↦ inr (has_atom-HasAtom t user org.id (ground arith))
    ],
  ),
  λ (e, g). elim g [
    | inl s ↦ ground arith
    | inr a ↦ ground (arith, HasAtom-has_atom t user org.id a, HasAtom-has_contract t user org.id a)
  ],
)

found_id :
    (t : Tables) (header : String) (org : Organization)
    → get_organization t header ≡ some org
    → org.id ≡ header
found_id t header org h =
    eq→path org.id header (find-In (λ o. o.id == header) t.organizations org h).1

-- With a header the check gives an organization exactly when that is the header's, it and the user
-- are live, and the user is a super-admin or has a live contract with it that a live link gives an
-- atom.
pub resolve_current_org_id-header :
    (t : Tables) (user header o : String)
    → (resolve_current_org_id t user (some header) ≡ ok (some o)) ↔ (
        (o ≡ header)
        × ((org : Organization) × (get_organization t header ≡ some org)
            × (is_none org.deleted_at ≡ true))
        × ((u : User) × (get_user t user ≡ some u)
            × (is_none u.deleted_at ≡ true)
            × ((u.is_super_admin ≡ true) ⊎ HasAtom user header t)))
unfolding resolve_current_org_id
resolve_current_org_id-header t user header o = (
  λ h. elim (Option-cases (get_organization t header)) [
    | inl e ↦ absurd (ground arith)
    | inr (org, e) ↦ elim (Bool-cases (is_none org.deleted_at)) [
      | inr d ↦ absurd (ground arith)
      | inl live ↦ elim (Option-cases (get_user t user)) [
        | inl f ↦ absurd (ground arith)
        | inr (u, f) ↦ elim (Bool-cases (is_none u.deleted_at)) [
          | inr d ↦ absurd (ground arith)
          | inl alive ↦
              let named = found_id t header org e in
              let (same, g) = (check_member-ok t user o org u).0 (ground arith) in
              (
                same ∙ named,
                (org, e, live),
                (u, f, alive, subst (λ x. (u.is_super_admin ≡ true) ⊎ HasAtom user x t) named g),
              )
        ]
      ]
    ]
  ],
  λ (same, (org, e, live), (u, f, alive, g)).
      let named = found_id t header org e in
      let g' = subst (λ x. (u.is_super_admin ≡ true) ⊎ HasAtom user x t) (sym named) g in
      ground (arith, (check_member-ok t user o org u).1 (same ∙ sym named, g')),
)
