-- ===== src/Access/CurrentOrg/Resolved.antt =====
-- Which organization a caller gets (core/org_scope.py, `resolve_current_org_id`).
use eyot_ai.Prelude.{
  String, ◌≡◌, ◌↔◌, ◌⊎◌, inl, inr, refl, ap, true, ◌&&◌, none, some, List, [], ◌∷◌, ◌==◌, eq_iff,
  eq_refl, arith, is_none, filter, map, contains, In, Bool-cases, Option-cases, eq→path,
}
use eyot_ai.Access.Tables.{Contract, Tables, ok}
use eyot_ai.Access.CurrentOrg.{
  is_member_contract, distinct, org_ids, only_one, resolve_current_org_id,
}

-- a live contract of the user with the organization, among the rows
abbrev pub Signed : String → String → List Contract → Type 0
Signed user org rows =
    (c : Contract) × In c rows
    × (c.user_id ≡ user)
    × (c.owner ≡ org)
    × (is_none c.deleted_at ≡ true)

contains-distinct : (xs : List String) (y : String) → contains (distinct xs) y ≡ contains xs y
unfolding distinct
contains-distinct [] y = refl
contains-distinct (x ∷ xs) y = elim (Bool-cases (contains (distinct xs) x)) [
  | inl e ↦ ground (arith, contains-distinct xs y, contains-distinct xs x, eq_iff x y)
  | inr e ↦ ground (arith, contains-distinct xs y)
]

-- the ids of the live contracts
owners-Signed :
    (user org : String) (rows : List Contract)
    → contains
        (map (λ c. c.owner) (filter (λ c. (c.user_id == user) && is_none c.deleted_at) rows))
        org
      ≡ true
    → Signed user org rows
owners-Signed user org [] h = absurd (ground arith)
owners-Signed user org (c ∷ rows) h = elim (Bool-cases (is_member_contract user org c)) [
  | inl e ↦ (
    c,
    inl refl,
    eq→path c.user_id user (ground arith),
    eq→path c.owner org (ground arith),
    ground arith,
  )
  | inr e ↦ let (x, m, u, o, l) = owners-Signed user org rows (ground arith) in (x, inr m, u, o, l)
]

Signed-owners :
    (user org : String) (rows : List Contract)
    → Signed user org rows
    → contains
        (map (λ c. c.owner) (filter (λ c. (c.user_id == user) && is_none c.deleted_at) rows))
        org
      ≡ true
Signed-owners user org [] (c, m, u, o, l) = elim m [ ]
Signed-owners user org (x ∷ rows) (c, inl e, u, o, l) =
    ground (arith, eq_iff x.user_id user, eq_iff x.owner org)
Signed-owners user org (x ∷ rows) (c, inr m, u, o, l) =
    ground (arith, Signed-owners user org rows (c, m, u, o, l))

all_same :
    (xs : List String) (o : String)
    → ((y : String) → contains xs y ≡ true → y ≡ o)
    → (distinct xs ≡ []) ⊎ (distinct xs ≡ o ∷ [])
unfolding distinct
all_same [] o h = inl refl
all_same (x ∷ xs) o h =
    let here = h x (ground (arith, eq_refl x)) in
    elim (all_same xs o (λ y e. h y (ground arith))) [
      | inl e ↦ inr (ground (arith))
      | inr e ↦ inr (ground (arith, eq_iff o x))
    ]

only_one-some : (xs : List String) (o : String) → only_one xs ≡ some o → xs ≡ o ∷ []
unfolding only_one
only_one-some [] o h = cc
only_one-some (x ∷ []) o h = ground arith
only_one-some (x ∷ y ∷ xs) o h = cc

-- Without a header the check raises nothing: it gives no organization or one. It gives an organization
-- exactly when the user has a live contract with that one and with no other. It does not ask that the
-- contract has an atom.
pub resolve_current_org_id-no_header :
    (t : Tables) (user org : String)
    → ((resolve_current_org_id t user none ≡ ok none)
        ⊎ ((given : String) × (resolve_current_org_id t user none ≡ ok (some given))))
      × ((resolve_current_org_id t user none ≡ ok (some org)) ↔ (
          Signed user org t.organization_contracts
          × ((other : String) → Signed user other t.organization_contracts → other ≡ org)))
unfolding resolve_current_org_id org_ids only_one
resolve_current_org_id-no_header t user org =
    let rows = t.organization_contracts in
    let owners =
      map (λ c. c.owner) (filter (λ c. (c.user_id == user) && is_none c.deleted_at) rows) in
    (
      elim (Option-cases (only_one (distinct owners))) [
        | inl e ↦ inl (ap ok e)
        | inr (given, e) ↦ inr (given, ap ok e)
      ],
      (
        λ h.
            let e = only_one-some (distinct owners) org (ground arith) in
            (
              owners-Signed user org rows
                  (ground (arith, contains-distinct owners org, eq_refl org)),
              λ other s. ground (
                arith,
                contains-distinct owners other,
                Signed-owners user other rows s,
                eq_iff org other,
              ),
            ),
        λ (s, only). elim (all_same owners org (λ y e. only y (owners-Signed user y rows e))) [
          | inl e ↦
              absurd (ground (arith, contains-distinct owners org, Signed-owners user org rows s))
          | inr e ↦ ap (λ l. ok (only_one l)) e
        ],
      ),
    )
