-- ===== src/Directive/Turns.antt =====
-- One result for each directive of a turn (core/directive_router.py, `route_turn`).
use eyot_ai.Prelude.{
  String, ◌≡◌, inl, inr, subst, true, Option, some, List, [], ◌∷◌, ◌==◌, ◌&&◌, find, is_none,
  opt_is, All,
}
use eyot_ai.Models.{Membership}
use eyot_ai.Messaging.{Directory, Outside, Directive, Turn}
use eyot_ai.Directive.{Archive, Site, DirectiveResult, answered}
use eyot_ai.Directive.Route.{route_directive, route_directives, route_turn}
use eyot_ai.Directive.Echoed.{
  answered-inj, Answer-cases, Echoes, IsQuiet, IsQuiet-trans, eq-IsQuiet, is_command,
  route_directive-Echoes,
}

-- one for each, in order
abbrev pub AllEcho : List Directive → List DirectiveResult → Type 0
AllEcho [] [] = Unit
AllEcho [] (r ∷ rs) = ⊥
AllEcho (d ∷ ds) [] = ⊥
AllEcho (d ∷ ds) (r ∷ rs) = Echoes d r × AllEcho ds rs

module _ (lower : String → String) (t : Directory) (a : Archive) (o : Outside) (ws : String) where
  route_directives-AllEcho :
      (user from : String) (g : Option String) (ds : List Directive) (s s' : Site)
      (rs : List DirectiveResult)
      → route_directives lower t a o ws user from g ds s ≡ answered rs s'
      → AllEcho ds rs × (All (λ d. is_command d ≡ true) ds → IsQuiet s s')
  unfolding route_directives
  route_directives-AllEcho user from g [] s s' rs e =
      let (same, left) = answered-inj [] rs s s' e in
      (subst (AllEcho []) same tt, λ h. eq-IsQuiet s s' left)
  route_directives-AllEcho user from g (d ∷ ds) s s' rs e =
      elim (Answer-cases (route_directive lower t a o ws user from g d s)) [
        | inr (error, u, x) ↦ absurd (cc (rw (x, route_directives) at e))
        | inl (r, u, x) ↦ elim (Answer-cases (route_directives lower t a o ws user from g ds u)) [
          | inr (error, v, y) ↦ absurd (cc (rw (x, y, route_directives) at e))
          | inl (rest, v, y) ↦
              let (same, left) =
                answered-inj (r ∷ rest) rs v s' (rw (x, y, route_directives) at e) in
              let (echoes, quiet) = route_directive-Echoes lower t a o ws user from g d s u r x in
              let (all, still) = route_directives-AllEcho user from g ds u v rest y in
              (
                subst (AllEcho (d ∷ ds)) same (echoes, all),
                λ (h, hs). IsQuiet-trans s u s' (quiet h) (subst (IsQuiet u) left (still hs)),
              )
        ]
      ]

  -- When a member's turn has been routed there is one result for each directive, in order, with the
  -- directive's words, target and command; commands of control and learning have no deliveries, and
  -- all but those of learning no capabilities; and a turn of such commands alone leaves the inject
  -- queue, the transcript, the user turns and their tasks as they were.
  pub route_turn-AllEcho :
      (turn : Turn) (user : String) (m : Membership) (s s' : Site) (rs : List DirectiveResult)
      → find
          (λ x. opt_is x.user_id user && (x.workspace_id == ws) && is_none x.deleted_at)
          t.memberships
        ≡ some m
      → route_turn lower t a o ws turn user s ≡ answered rs s'
      → AllEcho turn.directives rs × (All (λ d. is_command d ≡ true) turn.directives → IsQuiet s s')
  unfolding route_turn
  route_turn-AllEcho turn user m s s' rs member e =
      route_directives-AllEcho user m.id turn.general_text turn.directives s s' rs
        (rw (member, route_turn) at e)
