-- ===== src/Topology/Acyclic/Reach.antt =====
-- What it is to be connected by live passages, and that `links` gives the neighbours.
use eyot_ai.Prelude.{
  String, ◌≡◌, ◌⊎◌, inl, inr, refl, true, List, [], ◌∷◌, ◌==◌, eq_iff, arith, contains, In,
  Bool-cases,
}
use eyot_ai.Topology.Passages.{Passage, is_live, touches, other}
use eyot_ai.Topology.Acyclic.{links}

-- A live passage of the workspace has the two memberships for its ends, in one of the two orders.
abbrev pub Ends : String → String → Passage → Type 0
Ends x y p =
    ((p.from_membership_id ≡ x) × (p.to_membership_id ≡ y))
    ⊎ ((p.from_membership_id ≡ y) × (p.to_membership_id ≡ x))

unfoldable pub Joined : String → List Passage → String → String → Type 0
Joined ws rows x y = (p : Passage) × In p rows × (is_live ws p ≡ true) × Ends x y p

-- A chain of live passages.
pub data Connected (ws : String) (rows : List Passage) (x : String) : String → Type 0 where
  here : Connected ws rows x x
  step : {y z : String} → Connected ws rows x y → Joined ws rows y z → Connected ws rows x z

link-Ends :
    (ws x y : String) (p : Passage)
    → touches ws x p ≡ true
    → (other x p == y) ≡ true
    → (is_live ws p ≡ true) × Ends x y p
link-Ends ws x y p t o = ground (
  arith,
  eq_iff p.from_membership_id x,
  eq_iff p.to_membership_id x,
  eq_iff (other x p) y,
  eq_iff p.to_membership_id y,
  eq_iff p.from_membership_id y,
)

Ends-link :
    (ws x y : String) (p : Passage)
    → is_live ws p ≡ true
    → Ends x y p
    → (touches ws x p ≡ true) × ((other x p == y) ≡ true)
Ends-link ws x y p l (inl e) =
    ground (
      arith,
      eq_iff p.from_membership_id x,
      eq_iff p.to_membership_id x,
      eq_iff p.to_membership_id y,
    )
Ends-link ws x y p l (inr e) = ground (
  arith,
  eq_iff p.from_membership_id x,
  eq_iff p.to_membership_id x,
  eq_iff p.to_membership_id y,
  eq_iff p.from_membership_id y,
)

pub links-Joined :
    (ws : String) (rows : List Passage) (x y : String)
    → contains (links ws rows x) y ≡ true
    → Joined ws rows x y
unfolding Joined
links-Joined ws [] x y h = cc
links-Joined ws (p ∷ rows) x y h = elim (Bool-cases (touches ws x p)) [
  | inl t ↦ elim (Bool-cases (other x p == y)) [
    | inl o ↦ let e = link-Ends ws x y p t o in (p, inl refl, e.0, e.1)
    | inr o ↦ let (q, m, l, e) = links-Joined ws rows x y (ground arith) in (q, inr m, l, e)
  ]
  | inr t ↦ let (q, m, l, e) = links-Joined ws rows x y (ground arith) in (q, inr m, l, e)
]

links_of_member :
    (ws : String) (rows : List Passage) (x y : String) (p : Passage)
    → In p rows
    → touches ws x p ≡ true
    → (other x p == y) ≡ true
    → contains (links ws rows x) y ≡ true
links_of_member ws [] x y p m t o = elim m [ ]
links_of_member ws (q ∷ rows) x y p (inl e) t o = ground arith
links_of_member ws (q ∷ rows) x y p (inr m) t o =
    ground (arith, links_of_member ws rows x y p m t o)

pub Joined-links :
    (ws : String) (rows : List Passage) (x y : String)
    → Joined ws rows x y
    → contains (links ws rows x) y ≡ true
unfolding Joined
Joined-links ws rows x y (p, m, l, e) =
    let t = Ends-link ws x y p l e in links_of_member ws rows x y p m t.0 t.1
