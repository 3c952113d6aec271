-- ===== src/Access/Scope/Matrix.antt =====
-- The write-time matrix of scopes and ids (core/org_scope.py, `validate_scope_fks`).
use eyot_ai.Prelude.{
  String, ◌≡◌, ◌↔◌, ◌⊎◌, inl, inr, refl, sym, subst, ap, eq_refl, true, false, not, ◌&&◌, Option,
  none, some, ◌==◌, eq_iff, arith, is_none, Bool-cases, eq→path,
}
use eyot_ai.Access.Tables.{ok}
use eyot_ai.Access.Permissions.{differs}
use eyot_ai.Access.Scope.{
  is_valid_scope, with_current_org, check_system, check_org, check_workspace, check_namespace,
  validate_scope_fks,
}

-- the ids that a scope has, written as which of them are null
abbrev pub Matrix : String → Option String → Option String → Option String → Type 0
Matrix scope o n w =
    ((scope ≡ "system") × (is_none o ≡ true) × (is_none n ≡ true) × (is_none w ≡ true))
    ⊎ ((scope ≡ "org") × (is_none o ≡ false) × (is_none n ≡ true) × (is_none w ≡ true))
    ⊎ ((scope ≡ "namespace") × (is_none o ≡ false) × (is_none n ≡ false) × (is_none w ≡ true))
    ⊎ ((scope ≡ "workspace") × (is_none o ≡ false) × (is_none n ≡ false) × (is_none w ≡ false))

-- nothing but the ids that were given
abbrev Same :
    Option String
    → Option String
    → Option String
    → Option String
    → Option String
    → Option String
    → Type 0
Same o n w org ns ws = (o ≡ org) × (n ≡ ns) × (w ≡ ws)

check_system-ok :
    (org ns ws o n w : Option String)
    → check_system org ns ws ≡ ok (o, n, w)
    → (is_none org && is_none ns && is_none ws) ≡ true × Same o n w org ns ws
unfolding check_system
check_system-ok none none none o n w h = ground arith
check_system-ok (some x) ns ws o n w h = absurd (ground arith)
check_system-ok none (some x) ws o n w h = absurd (ground arith)
check_system-ok none none (some x) o n w h = absurd (ground arith)

check_org-ok :
    (org ns ws current o n w : Option String)
    → check_org org ns ws current ≡ ok (o, n, w)
    → (not (is_none org) && is_none ns && is_none ws && not (differs current org)) ≡ true
      × Same o n w org ns ws
unfolding check_org
check_org-ok none ns ws current o n w h = absurd (ground arith)
check_org-ok (some x) (some y) ws current o n w h = absurd (ground arith)
check_org-ok (some x) none (some y) current o n w h = absurd (ground arith)
check_org-ok (some x) none none current o n w h = ground arith

check_workspace-ok :
    (org ns ws current o n w : Option String)
    → check_workspace org ns ws current ≡ ok (o, n, w)
    → (not (is_none org) && not (is_none ns) && not (is_none ws) && not (differs current org))
        ≡ true
      × Same o n w org ns ws
unfolding check_workspace
check_workspace-ok org ns ws current o n w h = ground arith

check_namespace-ok :
    (org ns ws current o n w : Option String)
    → check_namespace org ns ws current ≡ ok (o, n, w)
    → (not (is_none org) && not (is_none ns) && is_none ws && not (differs current org)) ≡ true
      × Same o n w org ns ws
unfolding check_namespace
check_namespace-ok org ns (some x) current o n w h = absurd (ground arith)
check_namespace-ok org ns none current o n w h = ground arith

-- the organization that was given, or the current one where a scope may leave it out
abbrev pub Chosen : String → Option String → Option String → Option String → Type 0
Chosen scope org current o =
    (o ≡ org) ⊎ ((org ≡ none) × (o ≡ current) × ((scope ≡ "org") ⊎ (scope ≡ "namespace")))

-- no organization but the current one
abbrev pub OfCurrent : Option String → Option String → Type 0
OfCurrent current o = (current ≡ none) ⊎ (o ≡ none) ⊎ (current ≡ o)

differs-OfCurrent : (current o : Option String) → differs current o ≡ false → OfCurrent current o
differs-OfCurrent none o h = inl refl
differs-OfCurrent (some c) none h = inr (inl refl)
differs-OfCurrent (some c) (some x) h = inr (inr (ap some ((eq_iff c x).0 (ground arith))))

OfCurrent-differs : (current o : Option String) → OfCurrent current o → differs current o ≡ false
OfCurrent-differs none o h = refl
OfCurrent-differs (some c) none h = refl
OfCurrent-differs (some c) (some x) (inl e) = cc
OfCurrent-differs (some c) (some x) (inr (inl e)) = cc
OfCurrent-differs (some c) (some x) (inr (inr e)) =
    subst (λ d. differs d (some x) ≡ false) (sym e) (ground (arith, eq_refl x))

is_none-none : (o : Option String) → is_none o ≡ true → o ≡ none
is_none-none none h = refl
is_none-none (some x) h = absurd (ground arith)

differs-none : (current o : Option String) → is_none o ≡ true → differs current o ≡ false
differs-none none o h = refl
differs-none (some c) none h = refl
differs-none (some c) (some x) h = absurd (ground arith)

with_current_org-Chosen :
    (scope : String) (org current o : Option String)
    → o ≡ with_current_org scope org current
    → Chosen scope org current o
unfolding with_current_org
with_current_org-Chosen scope (some x) current o e = inl (ground arith)
with_current_org-Chosen scope none none o e = inl (ground arith)
with_current_org-Chosen scope none (some c) o e = elim (Bool-cases (scope == "org")) [
  | inl s ↦ inr (refl, ground arith, inl (eq→path scope "org" s))
  | inr s ↦ elim (Bool-cases (scope == "namespace")) [
    | inl n ↦ inr (refl, ground arith, inr (eq→path scope "namespace" n))
    | inr n ↦ inl (ground arith)
  ]
]

validate_scope_fks-parts :
    (scope : String) (org ns ws current o n w : Option String)
    → validate_scope_fks scope org ns ws current ≡ ok (o, n, w)
    → Matrix scope o n w
      × Same o n w (with_current_org scope org current) ns ws
      × (differs current o ≡ false)
unfolding validate_scope_fks is_valid_scope
validate_scope_fks-parts scope org ns ws current o n w h =
    let org' = with_current_org scope org current in
    elim (Bool-cases (scope == "system")) [
      | inl s ↦
          let (t, (io, in', iw)) = check_system-ok org' ns ws o n w (ground arith) in
          (
            inl (eq→path scope "system" s, ground arith, ground arith, ground arith),
            (io, in', iw),
            differs-none current o (ground arith),
          )
      | inr s ↦ elim (Bool-cases (scope == "org")) [
        | inl g ↦
            let (t, (io, in', iw)) = check_org-ok org' ns ws current o n w (ground arith) in
            (
              inr (inl (eq→path scope "org" g, ground arith, ground arith, ground arith)),
              (io, in', iw),
              ground arith,
            )
        | inr g ↦ elim (Bool-cases (scope == "workspace")) [
          | inl k ↦
              let (t, (io, in', iw)) = check_workspace-ok org' ns ws current o n w (ground arith) in
              (
                inr (
                    inr (
                      inr (eq→path scope "workspace" k, ground arith, ground arith, ground arith))),
                (io, in', iw),
                ground arith,
              )
          | inr k ↦
              let (t, (io, in', iw)) = check_namespace-ok org' ns ws current o n w (ground arith) in
              (
                inr (
                    inr (
                      inl (
                        eq→path scope "namespace" (ground arith),
                        ground arith,
                        ground arith,
                        ground arith,
                      ))),
                (io, in', iw),
                ground arith,
              )
        ]
      ]
    ]

module _ (org current o : Option String) where
  system-accepted :
      (ns ws : Option String)
      → (is_none o ≡ true) × (is_none ns ≡ true) × (is_none ws ≡ true)
      → o ≡ with_current_org "system" org current
      → validate_scope_fks "system" org ns ws current ≡ ok (o, ns, ws)
  unfolding validate_scope_fks is_valid_scope check_system
  system-accepted ns ws m c =
      ground (arith, is_none-none o m.0, is_none-none ns m.1, is_none-none ws m.2)

  org-accepted :
      (ns ws : Option String)
      → (is_none o ≡ false) × (is_none ns ≡ true) × (is_none ws ≡ true)
      → o ≡ with_current_org "org" org current
      → differs current o ≡ false
      → validate_scope_fks "org" org ns ws current ≡ ok (o, ns, ws)
  unfolding validate_scope_fks is_valid_scope check_org
  org-accepted none none m c d = ground arith
  org-accepted (some x) ws m c d = absurd (ground arith)
  org-accepted none (some x) m c d = absurd (ground arith)

  namespace-accepted :
      (ns ws : Option String)
      → (is_none o ≡ false) × (is_none ns ≡ false) × (is_none ws ≡ true)
      → o ≡ with_current_org "namespace" org current
      → differs current o ≡ false
      → validate_scope_fks "namespace" org ns ws current ≡ ok (o, ns, ws)
  unfolding validate_scope_fks is_valid_scope check_namespace
  namespace-accepted ns none m c d = ground arith
  namespace-accepted ns (some x) m c d = absurd (ground arith)

  workspace-accepted :
      (ns ws : Option String)
      → (is_none o ≡ false) × (is_none ns ≡ false) × (is_none ws ≡ false)
      → o ≡ with_current_org "workspace" org current
      → differs current o ≡ false
      → validate_scope_fks "workspace" org ns ws current ≡ ok (o, ns, ws)
  unfolding validate_scope_fks is_valid_scope check_workspace
  workspace-accepted ns ws m c d = ground arith

Chosen-with_current_org :
    (scope : String) (org ns ws current o : Option String)
    → Matrix scope o ns ws
    → Chosen scope org current o
    → OfCurrent current o
    → o ≡ with_current_org scope org current
unfolding with_current_org
Chosen-with_current_org scope (some x) ns ws current o m (inl e) k = ground arith
Chosen-with_current_org scope none ns ws current o (inl m) (inl e) k = rw m.0 e
Chosen-with_current_org scope none ns ws current o (inr (inl m)) (inl e) k = absurd (ground arith)
Chosen-with_current_org scope none ns ws current o (inr (inr (inl m))) (inl e) k =
    absurd (ground arith)
Chosen-with_current_org scope none ns ws current o (inr (inr (inr m))) (inl e) k =
    absurd (ground arith)
Chosen-with_current_org scope org ns ws none o m (inr (e, f, g)) k = ground arith
Chosen-with_current_org scope org ns ws (some x) o m (inr (e, f, g)) k =
    ground (arith, eq_iff scope "org", eq_iff scope "namespace")

Matrix-validate_scope_fks :
    (scope : String) (org ns ws current o : Option String)
    → Matrix scope o ns ws
    → o ≡ with_current_org scope org current
    → differs current o ≡ false
    → validate_scope_fks scope org ns ws current ≡ ok (o, ns, ws)
Matrix-validate_scope_fks scope org ns ws current o (inl m) c d = rw m.0 (
    system-accepted org current o ns ws (m.1, m.2, m.3)
      (subst (λ x. o ≡ with_current_org x org current) m.0 c))
Matrix-validate_scope_fks scope org ns ws current o (inr (inl m)) c d = rw m.0 (
    org-accepted org current o ns ws (m.1, m.2, m.3)
      (subst (λ x. o ≡ with_current_org x org current) m.0 c) d)
Matrix-validate_scope_fks scope org ns ws current o (inr (inr (inl m))) c d = rw m.0 (
    namespace-accepted org current o ns ws (m.1, m.2, m.3)
      (subst (λ x. o ≡ with_current_org x org current) m.0 c) d)
Matrix-validate_scope_fks scope org ns ws current o (inr (inr (inr m))) c d = rw m.0 (
    workspace-accepted org current o ns ws (m.1, m.2, m.3)
      (subst (λ x. o ≡ with_current_org x org current) m.0 c) d)

-- A write of a scope with the given ids, in the context of the current organization, is accepted
-- with the ids `o`, `n` and `w` exactly when these are what the matrix asks for (system: none; org:
-- an organization; namespace: also a namespace; workspace: also a workspace), the namespace and
-- the workspace are the given ones, the organization is the given one or, where an org or
-- namespace scope leaves it out, the current one, and it is no other than the current one.
pub validate_scope_fks-Matrix :
    (scope : String) (org ns ws current o n w : Option String)
    → (validate_scope_fks scope org ns ws current ≡ ok (o, n, w)) ↔ (
        Matrix scope o n w
        × ((n ≡ ns) × (w ≡ ws))
        × Chosen scope org current o
        × OfCurrent current o)
validate_scope_fks-Matrix scope org ns ws current o n w = (
  λ h.
      let (m, (io, in', iw), d) = validate_scope_fks-parts scope org ns ws current o n w h in
      (m, (in', iw), with_current_org-Chosen scope org current o io, differs-OfCurrent current o d),
  λ (m, (in', iw), c, k).
      rw (sym in', sym iw)
        (Matrix-validate_scope_fks scope org n w current o m
          (Chosen-with_current_org scope org n w current o m c k) (OfCurrent-differs current o k)),
)
