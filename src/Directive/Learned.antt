-- ===== src/Directive/Learned.antt =====
-- Distilling the same memories again adds nothing (core/directive_router.py, core/capabilities.py).
use eyot_ai.Prelude.{
  String, ◌≡◌, inl, inr, refl, sym, ap, subst, ◌∙◌, true, Option, some, List, [], ◌∷◌, ◌++◌, ◌==◌,
  filter, filter-append, eq_refl, eq→path, Bool-cases, Option-cases, List-cases, arith,
}
use eyot_ai.Models.{one_or_none-cases}
use eyot_ai.Messaging.{Directory, Outside, Directive, emit}
use eyot_ai.Directive.{Archive, Site, DirectiveResult, echo, Capability, answered, entity_of}
use eyot_ai.Directive.Distill.{
  Candidate, has_name, upsert_capability, distilled, upsert_all, distill_memory_candidates,
}
use eyot_ai.Directive.Control.{org_of, distilled_event, route_learning_directive}
use eyot_ai.Directive.Echoed.{answered-inj}

some-inj : {A : Type 0} (a b : A) → some a ≡ some b → a ≡ b
some-inj a b e = cc e

module _ (org_id : Option String) (slug : String) where
  -- the row of a candidate that the market has not
  new_row-has_name : (c : Candidate) → has_name c.name (distilled org_id slug c) ≡ true
  new_row-has_name c = ground (arith, eq_refl c.name)

  -- behind an upsert the row is the one of its name
  upsert-found :
      (c : Candidate) (market kept : List Capability) (row : Capability)
      → upsert_capability (distilled org_id slug c) market ≡ some (row, kept)
      → filter (has_name c.name) kept ≡ row ∷ []
  unfolding upsert_capability
  upsert-found c market kept row e = elim (one_or_none-cases (filter (has_name c.name) market)) [
    | inl absent ↦
        let pair =
          some-inj (distilled org_id slug c, market ++ distilled org_id slug c ∷ []) (row, kept)
            (rw (absent, upsert_capability) at e) in
        subst (λ p. filter (has_name c.name) p.1 ≡ p.0 ∷ []) pair
          (filter-append (has_name c.name) market (distilled org_id slug c ∷ [])
            ∙ rw (absent, new_row-has_name c) refl)
    | inr (inr many) ↦ absurd (cc (rw (many, upsert_capability) at e))
    | inr (inl (x, only)) ↦
        let pair = some-inj (x, market) (row, kept) (rw (only, upsert_capability) at e) in
        subst (λ p. filter (has_name c.name) p.1 ≡ p.0 ∷ []) pair only
  ]

  -- an upsert keeps the row of every name
  upsert-keeps :
      (c : Candidate) (market kept : List Capability) (row r : Capability) (name : String)
      → upsert_capability (distilled org_id slug c) market ≡ some (row, kept)
      → filter (has_name name) market ≡ r ∷ []
      → filter (has_name name) kept ≡ r ∷ []
  unfolding upsert_capability
  upsert-keeps c market kept row r name e f =
      elim (one_or_none-cases (filter (has_name c.name) market)) [
        | inl absent ↦
            let pair =
              some-inj (distilled org_id slug c, market ++ distilled org_id slug c ∷ []) (row, kept)
                (rw (absent, upsert_capability) at e) in
            elim (Bool-cases (c.name == name)) [
              | inl same ↦ absurd (
                  cc (
                    sym absent
                    ∙ subst (λ n. filter (has_name n) market ≡ r ∷ [])
                        (sym (eq→path c.name name same)) f))
              | inr differs ↦
                  subst (λ p. filter (has_name name) p.1 ≡ r ∷ []) pair
                    (filter-append (has_name name) market (distilled org_id slug c ∷ [])
                      ∙ rw (f, differs) refl)
            ]
        | inr (inr many) ↦ absurd (cc (rw (many, upsert_capability) at e))
        | inr (inl (x, only)) ↦
            let pair = some-inj (x, market) (row, kept) (rw (only, upsert_capability) at e) in
            subst (λ m. filter (has_name name) m ≡ r ∷ []) (ap (λ p. p.1) pair) f
      ]

  upsert_all-keeps :
      (cs : List Candidate) (market left : List Capability) (created : List (String × String))
      (r : Capability) (name : String)
      → upsert_all org_id slug cs market ≡ some (created, left)
      → filter (has_name name) market ≡ r ∷ []
      → filter (has_name name) left ≡ r ∷ []
  unfolding upsert_all
  upsert_all-keeps [] market left created r name e f =
      subst (λ p. filter (has_name name) p.1 ≡ r ∷ []) (some-inj ([], market) (created, left) e) f
  upsert_all-keeps (c ∷ cs) market left created r name e f =
      elim (Option-cases (upsert_capability (distilled org_id slug c) market)) [
        | inl many ↦ absurd (cc (rw (many, upsert_all) at e))
        | inr ((row, kept), x) ↦ elim (Option-cases (upsert_all org_id slug cs kept)) [
          | inl many ↦ absurd (cc (rw (x, many, upsert_all) at e))
          | inr ((rest, left'), y) ↦
              subst (λ p. filter (has_name name) p.1 ≡ r ∷ [])
                (some-inj ((row.name, row.cap_type) ∷ rest, left') (created, left)
                  (rw (x, y, upsert_all) at e))
                (upsert_all-keeps cs kept left' rest r name y
                  (upsert-keeps c market kept row r name x f))
        ]
      ]

  -- what was upserted is found again, and nothing is added
  pub upsert_all-again :
      (cs : List Candidate) (market left : List Capability) (created : List (String × String))
      → upsert_all org_id slug cs market ≡ some (created, left)
      → upsert_all org_id slug cs left ≡ some (created, left)
  unfolding upsert_all upsert_capability
  upsert_all-again [] market left created e =
      ap (λ p. some (p.0, left)) (some-inj ([], market) (created, left) e)
  upsert_all-again (c ∷ cs) market left created e =
      elim (Option-cases (upsert_capability (distilled org_id slug c) market)) [
        | inl many ↦ absurd (cc (rw (many, upsert_all) at e))
        | inr ((row, kept), x) ↦ elim (Option-cases (upsert_all org_id slug cs kept)) [
          | inl many ↦ absurd (cc (rw (x, many, upsert_all) at e))
          | inr ((rest, left'), y) ↦
              let pair =
                some-inj ((row.name, row.cap_type) ∷ rest, left') (created, left)
                  (rw (x, y, upsert_all) at e) in
              let y' =
                subst (λ l. upsert_all org_id slug cs kept ≡ some (rest, l)) (ap (λ p. p.1) pair)
                  y in
              let again = upsert_all-again cs kept left rest y' in
              let there =
                upsert_all-keeps cs kept left rest row c.name y'
                  (upsert-found c market kept row x) in
              rw (there, again, upsert_all, upsert_capability) (ap (λ p. some (p.0, left)) pair)
        ]
      ]

-- an answer that only echoes is given again
echo_again :
    (d : Directive) (s s' : Site) (r : DirectiveResult)
    → answered (echo d) s ≡ answered r s'
    → answered (echo d) s' ≡ answered r s'
echo_again d s s' r e = ap (λ x. answered x s') (answered-inj (echo d) r s s' e).0

-- A command to learn that was answered and is given again to the state that it left is answered with
-- the same capabilities, and leaves the market of capabilities as it is.
pub route_learning_directive-again :
    (lower : String → String) (t : Directory) (a : Archive) (o : Outside) (user : String)
    (d : Directive) (s s' : Site) (r : DirectiveResult)
    → route_learning_directive lower t a o user d s ≡ answered r s'
    → (s'' : Site) × (route_learning_directive lower t a o user d s' ≡ answered r s'')
      × (s''.market ≡ s'.market)
unfolding route_learning_directive
route_learning_directive-again lower t a o user d s s' r e = elim (Option-cases d.target_entity) [
  | inl bare ↦
      let first = rw (bare, route_learning_directive) at e in
      (s', rw (bare, route_learning_directive) (echo_again d s s' r first), refl)
  | inr (slug, target) ↦ elim (Option-cases (entity_of t slug)) [
    | inl unknown ↦
        let first = rw (target, unknown, route_learning_directive) at e in
        (s', rw (target, unknown, route_learning_directive) (echo_again d s s' r first), refl)
    | inr (entity, known) ↦
        elim (List-cases (distill_memory_candidates lower entity.id a.memories)) [
          | inl nothing ↦
              let first = rw (target, known, nothing, route_learning_directive) at e in
              (
                s',
                rw (target, known, nothing, route_learning_directive) (echo_again d s s' r first),
                refl,
              )
          | inr (m, ms, some_) ↦
              elim (Option-cases (upsert_all (org_of a entity) entity.slug (m ∷ ms) s.market)) [
                | inl many ↦
                    absurd (cc (rw (target, known, some_, many, route_learning_directive) at e))
                | inr ((created, market), x) ↦
                    let (same, left) =
                      answered-inj _ r _ s'
                        (rw (target, known, some_, x, route_learning_directive) at e) in
                    let again =
                      subst
                        (λ l.
                          upsert_all (org_of a entity) entity.slug (m ∷ ms) l ≡ some (created, l))
                        (ap (λ z. z.market) left)
                        (upsert_all-again (org_of a entity) entity.slug (m ∷ ms) s.market market
                          created x) in
                    let next = record s' {
                      world = emit o (distilled_event user entity created) s'.world;
                    } in
                    (
                      next,
                      rw (target, known, some_, again, route_learning_directive)
                          (ap (λ z. answered z next) same),
                      refl,
                    )
              ]
        ]
  ]
]
