-- ===== src/Access/Permissions/Required.antt =====
-- When the workspace-scoped check of core/permissions.py lets a user through.
use eyot_ai.Prelude.{
  String, ◌≡◌, ◌≢◌, ◌↔◌, ◌⊎◌, inl, inr, refl, sym, ap, ◌∙◌, true, Option, none, some, ◌==◌, eq_refl,
  arith, is_none, contains, In, Bool-cases, find-In, Option-cases, eq→path, ne→false,
}
use eyot_ai.Access.Tables.{
  Workspace, Namespace, User, Tables, Result, ok, get_workspace, get_namespace, get_user,
}
use eyot_ai.Access.Permissions.{
  resolve_ns, resolve_resource_org, differs, match_org, resolve_org_ns, list_grant_slugs,
  check_grant, require_permission, require_workspace_permission,
}
use eyot_ai.Access.Permissions.Grants.{OrgGrant, NamespaceGrant, list_grant_slugs-grants}

-- the header is absent or names the organization
abbrev pub Agrees : Option String → String → Type 0
Agrees header org = (header ≡ none) ⊎ (header ≡ some org)

-- the live workspace with the id, its live namespace, and a grant of the key in that namespace or
-- in its organization, which the header does not contradict
abbrev pub MayUse : Tables → String → String → String → Option String → Type 0
MayUse t user ws key header =
    (w : Workspace) × (n : Namespace) × ((get_workspace t ws ≡ some w)
      × (is_none w.deleted_at ≡ true))
    × ((get_namespace t w.namespace_id ≡ some n) × (is_none n.deleted_at ≡ true))
    × Agrees header n.org_id
    × (OrgGrant t user n.org_id key ⊎ NamespaceGrant t user w.namespace_id key)

check_grant-ok :
    (t : Tables) (user key org ns : String)
    → (check_grant t user key (ok (some org, some ns)) ≡ ok tt)
      ↔ (OrgGrant t user org key ⊎ NamespaceGrant t user ns key)
unfolding check_grant
check_grant-ok t user key org ns =
    let iff = list_grant_slugs-grants t user org ns key in
    (
      λ h. elim (Bool-cases (contains (list_grant_slugs t user (some org) (some ns)) key)) [
        | inl e ↦ iff.0 e
        | inr e ↦ absurd (ground arith)
      ],
      λ g. rw (iff.1 g) refl,
    )

org_cases :
    (header : Option String) (org : String) → Agrees header org ⊎ (differs header (some org) ≡ true)
org_cases none org = inl (inl refl)
org_cases (some h) org = elim (Bool-cases (h == org)) [
  | inl e ↦ inl (inr (ap some (eq→path h org e)))
  | inr e ↦ inr (ground arith)
]

match_org-Agrees :
    (header : Option String) (ns org : String)
    → org ≢ ""
    → Agrees header org
    → match_org header (some ns) (some org) ≡ ok (some org, some ns)
unfolding match_org
match_org-Agrees header ns org ne (inl e) = rw (e, match_org) (rw (ne→false org "" ne) refl)
match_org-Agrees header ns org ne (inr e) =
    rw (e, match_org) (rw (ne→false org "" ne, eq_refl org) refl)

match_org-differs :
    (t : Tables) (user key : String) (header : Option String) (ns org : String)
    → differs header (some org) ≡ true
    → check_grant t user key (match_org header (some ns) (some org)) ≢ ok tt
unfolding match_org check_grant
match_org-differs t user key header ns org d h = ground arith

-- the check of a user who is no super-admin
checks : Tables → String → String → String → Option String → Result Unit
checks t user ws key header = check_grant t user key (resolve_org_ns t header none (some ws))

checks-found :
    (t : Tables) (user ws key : String) (header : Option String) (w : Workspace) (n : Namespace)
    → (get_workspace t ws ≡ some w) × (is_none w.deleted_at ≡ true)
    → (get_namespace t w.namespace_id ≡ some n) × (is_none n.deleted_at ≡ true)
    → checks t user ws key header
      ≡ check_grant t user key (match_org header (some w.namespace_id) (some n.org_id))
unfolding checks resolve_org_ns resolve_ns resolve_resource_org
checks-found t user ws key header w n gw gn = ground arith

-- what a granted check has found on its way
checks-rows :
    (t : Tables) (user ws key : String) (header : Option String)
    → checks t user ws key header ≡ ok tt
    → (w : Workspace) × (n : Namespace) × ((get_workspace t ws ≡ some w)
        × (is_none w.deleted_at ≡ true))
      × ((get_namespace t w.namespace_id ≡ some n) × (is_none n.deleted_at ≡ true))
unfolding checks resolve_org_ns resolve_ns resolve_resource_org check_grant
checks-rows t user ws key header h = elim (Option-cases (get_workspace t ws)) [
  | inl e ↦ absurd (ground arith)
  | inr (w, e) ↦ elim (Bool-cases (is_none w.deleted_at)) [
    | inr d ↦ absurd (ground arith)
    | inl live ↦ elim (Option-cases (get_namespace t w.namespace_id)) [
      | inl f ↦ absurd (ground arith)
      | inr (n, f) ↦ elim (Bool-cases (is_none n.deleted_at)) [
        | inr d ↦ absurd (ground arith)
        | inl alive ↦ (w, n, (e, live), (f, alive))
      ]
    ]
  ]
]

checks-MayUse :
    (t : Tables) (user ws key : String) (header : Option String)
    → ((n : Namespace) → In n t.namespaces → n.org_id ≢ "")
    → checks t user ws key header ≡ ok tt
    → MayUse t user ws key header
checks-MayUse t user ws key header ids h =
    let (w, n, gw, gn) = checks-rows t user ws key header h in
    let named = ids n ((find-In (λ x. x.id == w.namespace_id) t.namespaces n gn.0).0) in
    let same = sym (checks-found t user ws key header w n gw gn) ∙ h in
    elim (org_cases header n.org_id) [
      | inr d ↦ absurd (match_org-differs t user key header w.namespace_id n.org_id d same)
      | inl a ↦
          let granted =
            ap (check_grant t user key)
              (sym (match_org-Agrees header w.namespace_id n.org_id named a))
            ∙ same in
          (w, n, gw, gn, a, (check_grant-ok t user key n.org_id w.namespace_id).0 granted)
    ]

MayUse-checks :
    (t : Tables) (user ws key : String) (header : Option String)
    → ((n : Namespace) → In n t.namespaces → n.org_id ≢ "")
    → MayUse t user ws key header
    → checks t user ws key header ≡ ok tt
MayUse-checks t user ws key header ids (w, n, gw, gn, a, g) =
    let named = ids n ((find-In (λ x. x.id == w.namespace_id) t.namespaces n gn.0).0) in
    checks-found t user ws key header w n gw gn
    ∙ ap (check_grant t user key) (match_org-Agrees header w.namespace_id n.org_id named a)
    ∙ (check_grant-ok t user key n.org_id w.namespace_id).1 g

-- Where every namespace names an organization, a workspace-scoped check passes exactly for a live
-- user who is a super-admin, or whose key a live contract grants in the namespace of the live
-- workspace or in that namespace's organization, and whose header is absent or names that
-- organization.
pub require_workspace_permission-MayUse :
    (t : Tables) (user ws key : String) (header : Option String)
    → ((n : Namespace) → In n t.namespaces → n.org_id ≢ "")
    → (require_workspace_permission t user ws key header ≡ ok tt) ↔ (
        (u : User) × ((get_user t user ≡ some u) × (is_none u.deleted_at ≡ true))
        × ((u.is_super_admin ≡ true) ⊎ MayUse t user ws key header))
unfolding require_workspace_permission require_permission checks
require_workspace_permission-MayUse t user ws key header ids = (
  λ h. elim (Option-cases (get_user t user)) [
    | inl e ↦ absurd (ground arith)
    | inr (u, e) ↦ elim (Bool-cases (is_none u.deleted_at)) [
      | inr d ↦ absurd (ground arith)
      | inl live ↦ (
        u,
        (e, live),
        elim (Bool-cases u.is_super_admin) [
          | inl s ↦ inl s
          | inr s ↦ inr (checks-MayUse t user ws key header ids (ground arith))
        ],
      )
    ]
  ],
  λ (u, (e, live), g). elim g [
    | inl s ↦ ground arith
    | inr m ↦
        let passed = MayUse-checks t user ws key header ids m in
        elim (Bool-cases u.is_super_admin) [ inl s ↦ ground arith | inr s ↦ ground arith ]
  ],
)
