-- ===== src/Access/Scope/Isolation.antt =====
-- A scoped row that a caller may write is seen by the caller's organization and by no other
-- (core/org_scope.py, core/scope_guard.py).
use eyot_ai.Prelude.{
  String, ◌≡◌, inl, inr, refl, sym, ◌∙◌, ap, Bool, true, false, ◌&&◌, Option, none, some, ◌==◌,
  eq_iff, eq_refl, arith, Bool-cases, &&-true,
}
use eyot_ai.Access.Tables.{Result, ok, error}
use eyot_ai.Access.Scope.{
  ScopedRow, is_visible, is_valid_scope, validate_scope_fks, scoped_visibility_clause,
  ensure_scope_create_allowed,
}
use eyot_ai.Access.Scope.Matrix.{Matrix, OfCurrent, validate_scope_fks-Matrix}

not_system :
    (scope : String) → ensure_scope_create_allowed scope ≡ ok tt → (scope == "system") ≡ false
unfolding ensure_scope_create_allowed
not_system scope h = ground arith

-- the accepted row belongs to the caller
owned :
    (scope caller : String) (o n w : Option String)
    → (scope == "system") ≡ false
    → Matrix scope o n w
    → OfCurrent (some caller) o
    → o ≡ some caller
owned scope caller o n w s m (inl e) = cc
owned scope caller o n w s m (inr (inl e)) = ground (arith, eq_iff scope "system")
owned scope caller o n w s m (inr (inr e)) = sym e

seen_by_owner :
    (scope caller : String) (viewer : Option String) (include_workspace : Bool)
    → (scope == "system") ≡ false
    → is_visible viewer include_workspace (record { scope = scope; organization_id = some caller })
      ≡ true
    → viewer ≡ some caller
unfolding is_visible
seen_by_owner scope caller none include_workspace s h = absurd (ground arith)
seen_by_owner scope caller (some v) include_workspace s h =
    ap some (sym ((eq_iff caller v).0 (ground arith)))

-- the test of a result, which no row passes on an error
abbrev test_of : Result (ScopedRow → Bool) → ScopedRow → Bool
test_of (ok p) r = p r
test_of (error e) r = false

filtered :
    (viewer : Option String) (f : String) (include_workspace : Bool)
    → is_valid_scope f ≡ true
    → scoped_visibility_clause viewer (some f) include_workspace
      ≡ ok (λ r. is_visible viewer include_workspace r && r.scope == f)
unfolding scoped_visibility_clause
filtered viewer f include_workspace v = rw v refl

clause-is_visible :
    (viewer filter : Option String) (include_workspace : Bool) (p : ScopedRow → Bool)
    (r : ScopedRow)
    → scoped_visibility_clause viewer filter include_workspace ≡ ok p
    → p r ≡ true
    → is_visible viewer include_workspace r ≡ true
unfolding scoped_visibility_clause
clause-is_visible viewer none include_workspace p r h e = ap (λ x. test_of x r) h ∙ e
clause-is_visible viewer (some f) include_workspace p r h e = elim (Bool-cases (is_valid_scope f)) [
  | inl v ↦
      let both = ap (λ x. test_of x r) (sym (filtered viewer f include_workspace v) ∙ h) ∙ e in
      (&&-true (is_visible viewer include_workspace r) (r.scope == f) both).0
  | inr v ↦ absurd (ground arith)
]

shown :
    (scope caller : String) (o n w : Option String)
    → o ≡ some caller
    → Matrix scope o n w
    → is_visible (some caller) true (record { scope = scope; organization_id = some caller }) ≡ true
unfolding is_visible
shown scope caller o n w e m = ground (
  arith,
  eq_refl caller,
  eq_iff scope "system",
  eq_iff scope "org",
  eq_iff scope "namespace",
  eq_iff scope "workspace",
)

-- A row that a caller of an organization may create, with the scope and the ids that the write
-- checks give, is visible to the caller's organization where workspace rows are included; and no
-- list query, with any scope filter, shows it to another organization or to a caller without one.
pub created_row-isolated :
    (scope caller : String) (org ns ws o n w : Option String)
    → ensure_scope_create_allowed scope ≡ ok tt
    → validate_scope_fks scope org ns ws (some caller) ≡ ok (o, n, w)
    → let row : ScopedRow = record { scope = scope; organization_id = o } in
      (is_visible (some caller) true row ≡ true)
      × ((viewer filter : Option String) (include_workspace : Bool) (p : ScopedRow → Bool)
          → scoped_visibility_clause viewer filter include_workspace ≡ ok p
          → p row ≡ true
          → viewer ≡ some caller)
created_row-isolated scope caller org ns ws o n w c v =
    let (m, given, chosen, k) =
      (validate_scope_fks-Matrix scope org ns ws (some caller) o n w).0 v in
    let s = not_system scope c in
    let mine = owned scope caller o n w s m k in
    (
      rw mine (shown scope caller o n w mine m),
      λ viewer filter include_workspace p q e.
          seen_by_owner scope caller viewer include_workspace s (
            clause-is_visible viewer filter include_workspace p
              (record { scope = scope; organization_id = some caller }) q (rw (sym mine) e)),
    )
