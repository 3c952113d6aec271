-- ===== src/Access/Permissions/Grants.antt =====
-- Which atoms the contracts grant (core/permissions.py, `list_grant_slugs`, `list_user_grant_slugs`).
use eyot_ai.Prelude.{
  String, ◌≡◌, ◌↔◌, ◌⊎◌, inl, inr, refl, subst, Bool, true, ◌&&◌, ◌||◌, some, List, [], ◌∷◌, ◌++◌,
  ◌==◌, eq_iff, eq_refl, arith, is_none, contains, In, Bool-cases, eq→path, &&-true,
}
use eyot_ai.Access.Tables.{Contract, ContractGene, UserGene, Tables}
use eyot_ai.Access.Permissions.{
  gene_slugs, linked_slugs, contract_slugs, is_grant, list_grant_slugs, list_user_grant_slugs,
}

pub contains-concat :
    (xs ys : List String) (a : String) → contains (xs ++ ys) a ≡ (contains xs a || contains ys a)
contains-concat [] ys a = refl
contains-concat (x ∷ xs) ys a = ground (arith, contains-concat xs ys a)

-- a live gene with the id has the slug
abbrev pub IsSlugOf : List UserGene → String → String → Type 0
IsSlugOf genes id key =
    (u : UserGene) × In u genes × ((u.id ≡ id) × (is_none u.deleted_at ≡ true)) × (u.slug ≡ key)

-- a live link leads from the contract to a live gene with the slug
abbrev pub Links : List UserGene → List ContractGene → String → String → Type 0
Links genes links contract key =
    (l : ContractGene) × In l links
    × ((l.contract_id ≡ contract) × (is_none l.deleted_at ≡ true))
    × IsSlugOf genes l.user_gene_id key

-- a live contract that passes the test links to the slug
abbrev pub Grants :
    List UserGene → List ContractGene → (Contract → Bool) → List Contract → String → Type 0
Grants genes links p contracts key =
    (c : Contract) × In c contracts
    × ((p c ≡ true) × (is_none c.deleted_at ≡ true))
    × Links genes links c.id key

gene_slugs-IsSlugOf :
    (genes : List UserGene) (id key : String)
    → contains (gene_slugs genes id) key ≡ true
    → IsSlugOf genes id key
unfolding gene_slugs
gene_slugs-IsSlugOf [] id key h = absurd (ground arith)
gene_slugs-IsSlugOf (u ∷ genes) id key h =
    elim (Bool-cases ((u.id == id) && is_none u.deleted_at && (u.slug == key))) [
      | inl e ↦ (
        u,
        inl refl,
        (eq→path u.id id (ground arith), ground arith),
        eq→path u.slug key (ground arith),
      )
      | inr e ↦
          let (x, m, l, s) = gene_slugs-IsSlugOf genes id key (ground arith) in (x, inr m, l, s)
    ]

IsSlugOf-gene_slugs :
    (genes : List UserGene) (id key : String)
    → IsSlugOf genes id key
    → contains (gene_slugs genes id) key ≡ true
unfolding gene_slugs
IsSlugOf-gene_slugs [] id key (u, m, l, s) = elim m [ ]
IsSlugOf-gene_slugs (x ∷ genes) id key (u, inl e, l, s) =
    ground (arith, eq_iff x.id id, eq_iff x.slug key)
IsSlugOf-gene_slugs (x ∷ genes) id key (u, inr m, l, s) =
    ground (arith, IsSlugOf-gene_slugs genes id key (u, m, l, s))

linked_slugs-Links :
    (genes : List UserGene) (links : List ContractGene) (c key : String)
    → contains (linked_slugs genes links c) key ≡ true
    → Links genes links c key
unfolding linked_slugs
linked_slugs-Links genes [] c key h = absurd (ground arith)
linked_slugs-Links genes (l ∷ links) c key h =
    let split =
      contains-concat (gene_slugs genes l.user_gene_id) (linked_slugs genes links c) key in
    elim (Bool-cases (
      (l.contract_id == c)
      && is_none l.deleted_at
      && contains (gene_slugs genes l.user_gene_id) key)) [
        | inl e ↦ (
          l,
          inl refl,
          (eq→path l.contract_id c (ground arith), ground arith),
          gene_slugs-IsSlugOf genes l.user_gene_id key (ground arith),
        )
        | inr e ↦
            let (x, m, live, s) = linked_slugs-Links genes links c key (ground (arith, split)) in
            (x, inr m, live, s)
      ]

Links-linked_slugs :
    (genes : List UserGene) (links : List ContractGene) (c key : String)
    → Links genes links c key
    → contains (linked_slugs genes links c) key ≡ true
unfolding linked_slugs
Links-linked_slugs genes [] c key (l, m, live, s) = elim m [ ]
Links-linked_slugs genes (x ∷ links) c key (l, inl e, live, s) =
    let here =
      subst (λ y. contains (gene_slugs genes y.user_gene_id) key ≡ true) e
        (IsSlugOf-gene_slugs genes l.user_gene_id key s) in
    ground (
      arith,
      eq_iff x.contract_id c,
      contains-concat (gene_slugs genes x.user_gene_id) (linked_slugs genes links c) key,
    )
Links-linked_slugs genes (x ∷ links) c key (l, inr m, live, s) = ground (
  arith,
  Links-linked_slugs genes links c key (l, m, live, s),
  contains-concat (gene_slugs genes x.user_gene_id) (linked_slugs genes links c) key,
)

contract_slugs-Grants :
    (genes : List UserGene) (links : List ContractGene) (p : Contract → Bool)
    (contracts : List Contract) (key : String)
    → contains (contract_slugs genes links p contracts) key ≡ true
    → Grants genes links p contracts key
unfolding contract_slugs
contract_slugs-Grants genes links p [] key h = absurd (ground arith)
contract_slugs-Grants genes links p (c ∷ contracts) key h =
    let split =
      contains-concat (linked_slugs genes links c.id) (contract_slugs genes links p contracts)
        key in
    elim (Bool-cases
      (p c && is_none c.deleted_at && contains (linked_slugs genes links c.id) key)) [
        | inl e ↦ (
          c,
          inl refl,
          (ground arith, ground arith),
          linked_slugs-Links genes links c.id key (ground arith),
        )
        | inr e ↦
            let (x, m, live, s) =
              contract_slugs-Grants genes links p contracts key (ground (arith, split)) in
            (x, inr m, live, s)
      ]

Grants-contract_slugs :
    (genes : List UserGene) (links : List ContractGene) (p : Contract → Bool)
    (contracts : List Contract) (key : String)
    → Grants genes links p contracts key
    → contains (contract_slugs genes links p contracts) key ≡ true
unfolding contract_slugs
Grants-contract_slugs genes links p [] key (c, m, live, s) = elim m [ ]
Grants-contract_slugs genes links p (x ∷ contracts) key (c, inl e, live, s) =
    let here =
      subst (λ y. contains (linked_slugs genes links y.id) key ≡ true) e
        (Links-linked_slugs genes links c.id key s) in
    let holds = subst (λ y. p y ≡ true) e live.0 in
    ground (
      arith,
      contains-concat (linked_slugs genes links x.id) (contract_slugs genes links p contracts) key,
    )
Grants-contract_slugs genes links p (x ∷ contracts) key (c, inr m, live, s) = ground (
  arith,
  Grants-contract_slugs genes links p contracts key (c, m, live, s),
  contains-concat (linked_slugs genes links x.id) (contract_slugs genes links p contracts) key,
)

-- The user has a live contract with the organization that links to the atom.
pub OrgGrant : Tables → String → String → String → Type 0
OrgGrant t user org key =
    Grants t.user_genes t.organization_contract_genes (is_grant org user) t.organization_contracts
      key

-- The user has a live contract with the namespace that links to the atom.
pub NamespaceGrant : Tables → String → String → String → Type 0
NamespaceGrant t user ns key =
    Grants t.user_genes t.namespace_contract_genes (is_grant ns user) t.namespace_contracts key

pub list_grant_slugs-grants :
    (t : Tables) (user org ns key : String)
    → (contains (list_grant_slugs t user (some org) (some ns)) key ≡ true)
      ↔ (OrgGrant t user org key ⊎ NamespaceGrant t user ns key)
unfolding list_grant_slugs OrgGrant NamespaceGrant
list_grant_slugs-grants t user org ns key =
    let os =
      contract_slugs t.user_genes t.organization_contract_genes (is_grant org user)
        t.organization_contracts in
    let ns' =
      contract_slugs t.user_genes t.namespace_contract_genes (is_grant ns user)
        t.namespace_contracts in
    let split = contains-concat os ns' key in
    (
      λ h. elim (Bool-cases (contains os key)) [
        | inl e ↦ inl (
            contract_slugs-Grants t.user_genes t.organization_contract_genes (is_grant org user)
              t.organization_contracts key e)
        | inr e ↦ inr (
            contract_slugs-Grants t.user_genes t.namespace_contract_genes (is_grant ns user)
              t.namespace_contracts key (ground (arith, split)))
      ],
      λ g. elim g [
        | inl o ↦ ground (
          arith,
          split,
          Grants-contract_slugs t.user_genes t.organization_contract_genes (is_grant org user)
              t.organization_contracts key o,
        )
        | inr n ↦ ground (
          arith,
          split,
          Grants-contract_slugs t.user_genes t.namespace_contract_genes (is_grant ns user)
              t.namespace_contracts key n,
        )
      ],
    )

-- another test of the same contracts
Grants-retest :
    (genes : List UserGene) (links : List ContractGene) (p q : Contract → Bool)
    (contracts : List Contract) (key : String) (g : Grants genes links p contracts key)
    → q g.0 ≡ true
    → Grants genes links q contracts key
Grants-retest genes links p q contracts key (c, m, live, s) h = (c, m, (h, live.1), s)

own_grant :
    (user : String) (c : Contract) → (c.user_id == user) ≡ true → is_grant c.owner user c ≡ true
own_grant user c h = ground (arith, eq_refl c.owner)

-- `list_user_grant_slugs` lists exactly the atoms that the user's live contracts link to, with any
-- organization or any namespace.
pub list_user_grant_slugs-any_grant :
    (t : Tables) (user key : String)
    → (contains (list_user_grant_slugs t user) key ≡ true) ↔ (
        ((org : String) × OrgGrant t user org key) ⊎ ((ns : String) × NamespaceGrant t user ns key))
unfolding list_user_grant_slugs OrgGrant NamespaceGrant
list_user_grant_slugs-any_grant t user key =
    let mine : Contract → Bool = λ c. c.user_id == user in
    let os =
      contract_slugs t.user_genes t.organization_contract_genes mine t.organization_contracts in
    let ns' = contract_slugs t.user_genes t.namespace_contract_genes mine t.namespace_contracts in
    let split = contains-concat os ns' key in
    (
      λ h. elim (Bool-cases (contains os key)) [
        | inl e ↦
            let g =
              contract_slugs-Grants t.user_genes t.organization_contract_genes mine
                t.organization_contracts key e in
            inl (
              g.0.owner,
              Grants-retest t.user_genes t.organization_contract_genes mine
                  (is_grant g.0.owner user) t.organization_contracts key g
                  (own_grant user g.0 g.2.0),
            )
        | inr e ↦
            let g =
              contract_slugs-Grants t.user_genes t.namespace_contract_genes mine
                t.namespace_contracts key (ground (arith, split)) in
            inr (
              g.0.owner,
              Grants-retest t.user_genes t.namespace_contract_genes mine (is_grant g.0.owner user)
                  t.namespace_contracts key g (own_grant user g.0 g.2.0),
            )
      ],
      λ g. elim g [
        | inl (o, x) ↦
            let y =
              Grants-retest t.user_genes t.organization_contract_genes (is_grant o user) mine
                t.organization_contracts key x
                (&&-true (x.0.owner == o) (x.0.user_id == user) x.2.0).1 in
            ground (
              arith,
              split,
              Grants-contract_slugs t.user_genes t.organization_contract_genes mine
                  t.organization_contracts key y,
            )
        | inr (n, x) ↦
            let y =
              Grants-retest t.user_genes t.namespace_contract_genes (is_grant n user) mine
                t.namespace_contracts key x
                (&&-true (x.0.owner == n) (x.0.user_id == user) x.2.0).1 in
            ground (
              arith,
              split,
              Grants-contract_slugs t.user_genes t.namespace_contract_genes mine
                  t.namespace_contracts key y,
            )
      ],
    )
