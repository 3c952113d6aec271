-- ===== src/Directive/Echoed.antt =====
-- The result of one directive (core/directive_router.py, the body of the loop of `route_turn`).
use eyot_ai.Prelude.{
  String, ◌≡◌, ◌⊎◌, inl, inr, refl, sym, subst, ◌∙◌, Bool, true, false, Option, none, some, [], ◌∷◌,
  ◌||◌, Bool-cases, Option-cases, List-cases, arith,
}
use eyot_ai.Text.{is_empty}
use eyot_ai.Models.{Entity}
use eyot_ai.Messaging.{Directory, Outside, Directive, Outcome-cases, RouteError}
use eyot_ai.Harness.Breakers.{emit_plain}
use eyot_ai.Messaging.Sending.{Message}
use eyot_ai.Messaging.Router.{route_message}
use eyot_ai.Directive.{
  Archive, Site, DirectiveResult, echo, Answer, answered, aborted, entity_of, instance_of,
}
use eyot_ai.Directive.Distill.{distill_memory_candidates, upsert_all}
use eyot_ai.Directive.Control.{
  org_of, is_control_command, is_learning_command, control_action, control_instance,
  route_control_directive, route_learning_directive,
}
use eyot_ai.Directive.Route.{send, route_plain_directive, route_directive}

pub answered-inj :
    {A : Type 0} (a b : A) (s s' : Site) → answered a s ≡ answered b s' → (a ≡ b) × (s ≡ s')
answered-inj a b s s' e = (cc e, cc e)

pub Answer-cases :
    {A : Type 0} (x : Answer A)
    → ((a : A) × (s : Site) × (x ≡ answered a s))
      ⊎ ((e : RouteError) × (s : Site) × (x ≡ aborted e s))
Answer-cases (answered a s) = inl (a, s, refl)
Answer-cases (aborted e s) = inr (e, s, refl)

-- the result of a directive: its words, deliveries where it is a message, and capabilities where it is
-- a command to learn
abbrev pub Echoes : Directive → DirectiveResult → Type 0
Echoes d r =
    (r.directive_raw ≡ d.raw_text)
    × (r.target_entity ≡ d.target_entity)
    × (r.cmd ≡ d.cmd)
    × ((is_control_command d.cmd || is_learning_command d.cmd) ≡ true → r.results ≡ [])
    × ((is_control_command d.cmd ≡ true) ⊎ (is_learning_command d.cmd ≡ false)
        → r.created_capabilities ≡ [])

echo-Echoes : (d : Directive) (r : DirectiveResult) → echo d ≡ r → Echoes d r
echo-Echoes d r e = subst (Echoes d) e (refl, refl, refl, λ h. refl, λ h. refl)

-- the queue, the transcript and the user turns as they were
abbrev pub IsQuiet : Site → Site → Type 0
IsQuiet s s' =
    (s'.world.injects ≡ s.world.injects)
    × (s'.world.messages ≡ s.world.messages)
    × (s'.world.turns ≡ s.world.turns)
    × (s'.world.tasks ≡ s.world.tasks)

pub IsQuiet-trans : (s u v : Site) → IsQuiet s u → IsQuiet u v → IsQuiet s v
IsQuiet-trans s u v (a, b, c, d) (e, f, g, h) = (e ∙ a, f ∙ b, g ∙ c, h ∙ d)

pub eq-IsQuiet : (s s' : Site) → s ≡ s' → IsQuiet s s'
eq-IsQuiet s s' e = subst (IsQuiet s) e (refl, refl, refl, refl)

-- an answer that only echoes
only_echo :
    (d : Directive) (s s' : Site) (r : DirectiveResult)
    → answered (echo d) s ≡ answered r s'
    → Echoes d r × IsQuiet s s'
only_echo d s s' r e =
    let (same, left) = answered-inj (echo d) r s s' e in
    (echo-Echoes d r same, eq-IsQuiet s s' left)

control_instance-Echoes :
    (o : Outside) (d : Directive) (k : String) (s s' : Site) (r : DirectiveResult)
    → control_instance o d k s ≡ answered r s'
    → Echoes d r × IsQuiet s s'
unfolding control_instance
control_instance-Echoes o d k s s' r e =
    elim (Option-cases (control_action o d.cmd k s.world.harness).0) [
      | inl done ↦
          let (same, left) = answered-inj (echo d) r _ s' (rw (done, control_instance) at e) in
          (echo-Echoes d r same, subst (IsQuiet s) left (refl, refl, refl, refl))
      | inr (error, x) ↦ absurd (cc (rw (x, control_instance) at e))
    ]

control-Echoes :
    (t : Directory) (o : Outside) (ws : String) (d : Directive) (s s' : Site) (r : DirectiveResult)
    → route_control_directive t o ws d s ≡ answered r s'
    → Echoes d r × IsQuiet s s'
unfolding route_control_directive
control-Echoes t o ws d s s' r e = elim (Option-cases d.target_entity) [
  | inl bare ↦ only_echo d s s' r (rw (bare, route_control_directive) at e)
  | inr (slug, target) ↦ elim (Option-cases (entity_of t slug)) [
    | inl unknown ↦ only_echo d s s' r (rw (target, unknown, route_control_directive) at e)
    | inr (entity, known) ↦ elim (Option-cases (instance_of t entity.id ws)) [
      | inl down ↦ only_echo d s s' r (rw (target, known, down, route_control_directive) at e)
      | inr (i, up) ↦
          control_instance-Echoes o d i.id s s' r
            (rw (target, known, up, route_control_directive) at e)
    ]
  ]
]

learning-Echoes :
    (lower : String → String) (t : Directory) (a : Archive) (o : Outside) (user : String)
    (d : Directive) (s s' : Site) (r : DirectiveResult)
    → is_control_command d.cmd ≡ false
    → is_learning_command d.cmd ≡ true
    → route_learning_directive lower t a o user d s ≡ answered r s'
    → Echoes d r × IsQuiet s s'
unfolding route_learning_directive emit_plain
learning-Echoes lower t a o user d s s' r c l e = elim (Option-cases d.target_entity) [
  | inl bare ↦ only_echo d s s' r (rw (bare, route_learning_directive) at e)
  | inr (slug, target) ↦ elim (Option-cases (entity_of t slug)) [
    | inl unknown ↦ only_echo d s s' r (rw (target, unknown, route_learning_directive) at e)
    | inr (entity, known) ↦
        elim (List-cases (distill_memory_candidates lower entity.id a.memories)) [
          | inl nothing ↦
              only_echo d s s' r (rw (target, known, nothing, route_learning_directive) at e)
          | inr (m, ms, some_) ↦
              elim (Option-cases (upsert_all (org_of a entity) entity.slug (m ∷ ms) s.market)) [
                | inl many ↦
                    absurd (cc (rw (target, known, some_, many, route_learning_directive) at e))
                | inr ((created, market), x) ↦
                    let (same, left) =
                      answered-inj _ r _ s'
                        (rw (target, known, some_, x, route_learning_directive) at e) in
                    (
                      subst (Echoes d) same
                          (refl, refl, refl, λ h. refl, λ h. absurd (ground (arith, c, l, h))),
                      subst (IsQuiet s) left (refl, refl, refl, refl),
                    )
              ]
        ]
  ]
]

send-Echoes :
    (lower : String → String) (t : Directory) (a : Archive) (o : Outside) (ws from : String)
    (general_text : Option String) (d : Directive) (target : Option Entity) (s s' : Site)
    (r : DirectiveResult)
    → (is_control_command d.cmd || is_learning_command d.cmd) ≡ false
    → send lower t a o ws from general_text d target s ≡ answered r s'
    → Echoes d r
unfolding send
send-Echoes lower t a o ws from general_text d target s s' r c e =
    let m : Message = record {
      from_membership_id = from;
      workspace_id = ws;
      directive = d;
      general_text = general_text;
    } in
    elim (Outcome-cases (route_message t o m s.world)) [
      | inl (results, w, x) ↦
          subst (Echoes d) (answered-inj _ r _ s' (rw (x, send) at e)).0
            (refl, refl, refl, λ h. absurd (cc (sym h ∙ c)), λ h. refl)
      | inr (error, w, x) ↦ absurd (cc (rw (x, send) at e))
    ]

plain-Echoes :
    (lower : String → String) (t : Directory) (a : Archive) (o : Outside) (ws from : String)
    (general_text : Option String) (d : Directive) (s s' : Site) (r : DirectiveResult)
    → (is_control_command d.cmd || is_learning_command d.cmd) ≡ false
    → route_plain_directive lower t a o ws from general_text d s ≡ answered r s'
    → Echoes d r
unfolding route_plain_directive
plain-Echoes lower t a o ws from g d s s' r c e = elim (Option-cases d.target_entity) [
  | inl bare ↦
      send-Echoes lower t a o ws from g d none s s' r c (rw (bare, route_plain_directive) at e)
  | inr (slug, target) ↦ elim (Bool-cases (is_empty slug)) [
    | inl empty ↦
        send-Echoes lower t a o ws from g d none s s' r c
          (rw (target, empty, route_plain_directive) at e)
    | inr named ↦ elim (Option-cases (entity_of t slug)) [
      | inl unknown ↦
          send-Echoes lower t a o ws from g d none s s' r c
            (rw (target, named, unknown, route_plain_directive) at e)
      | inr (entity, known) ↦ elim (Option-cases (instance_of t entity.id ws)) [
        | inl down ↦
            (only_echo d s s' r (rw (target, named, known, down, route_plain_directive) at e)).0
        | inr (i, up) ↦
            send-Echoes lower t a o ws from g d (some entity) s s' r c
              (rw (target, named, known, up, route_plain_directive) at e)
      ]
    ]
  ]
]

-- a command leaves the messages alone
abbrev pub is_command : Directive → Bool
is_command d = is_control_command d.cmd || is_learning_command d.cmd

pub route_directive-Echoes :
    (lower : String → String) (t : Directory) (a : Archive) (o : Outside) (ws user from : String)
    (g : Option String) (d : Directive) (s s' : Site) (r : DirectiveResult)
    → route_directive lower t a o ws user from g d s ≡ answered r s'
    → Echoes d r × (is_command d ≡ true → IsQuiet s s')
unfolding route_directive
route_directive-Echoes lower t a o ws user from g d s s' r e =
    elim (Bool-cases (is_control_command d.cmd)) [
      | inl control ↦
          let (echoes, quiet) =
            control-Echoes t o ws d s s' r (rw (control, route_directive) at e) in
          (echoes, λ h. quiet)
      | inr other ↦ elim (Bool-cases (is_learning_command d.cmd)) [
        | inl learning ↦
            let (echoes, quiet) =
              learning-Echoes lower t a o user d s s' r other learning
                (rw (other, learning, route_directive) at e) in
            (echoes, λ h. quiet)
        | inr plain ↦
            let neither : is_command d ≡ false = rw (other, plain) refl in
            (
              plain-Echoes lower t a o ws from g d s s' r neither
                  (rw (other, plain, route_directive) at e),
              λ h. absurd (cc (sym h ∙ neither)),
            )
      ]
    ]
