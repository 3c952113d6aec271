-- ===== src/Messaging/Routed.antt =====
-- The results of a routed message are those of the passages, and are what happened
-- (core/message_router.py, `route_message`).
use eyot_ai.Prelude.{
  ℕ, ◌+◌, String, ◌≡◌, inl, inr, refl, subst, ◌∙◌, false, Option, none, some, List, [], ◌∷◌, arith,
  if◌then◌else◌, Option-cases, opt_is, count, length, filter, ltb,
}
use eyot_ai.Models.{Instance, one_or_none-cases, Entity}
use eyot_ai.Inject.Queue.{is_due}
use eyot_ai.Messaging.{Directory, Outside, World, MessageDeliveryResult, Outcome-cases, returned}
use eyot_ai.Messaging.Parts.{undelivered}
use eyot_ai.Messaging.Sending.{Message}
use eyot_ai.Messaging.Router.{
  route_to_instance, route_to_instances, author_user_id, has_slug, is_recipient,
  route_to_recipients, route_message,
}
use eyot_ai.Messaging.Accounts.{is_queued, Accounted, returned-inj}
use eyot_ai.Messaging.Delivered.{Answers, route_to_instance-Answers}

-- what all results say of the state before and after: the queue of each instance has grown by the
-- results that say so, and the user turns by those that were delivered
abbrev pub AllAccounted : ℕ → List MessageDeliveryResult → World → World → Type 0
AllAccounted now rs w w' =
    ((later : ℕ) (k : String)
      → count (is_due later k) w'.injects
        ≡ count (is_due later k) w.injects
          + (if ltb later (now + 3600000000) then count (is_queued k) rs else 0))
    × (length w'.turns ≡ length w.turns + count (λ r. r.delivered) rs)
    × (w'.harness.states ≡ w.harness.states)

AllAccounted-cons :
    (now : ℕ) (r : MessageDeliveryResult) (rs : List MessageDeliveryResult) (u v w : World)
    → Accounted now r u v
    → AllAccounted now rs v w
    → AllAccounted now (r ∷ rs) u w
unfolding Accounted
AllAccounted-cons now r rs u v w (a, b, c) (d, e, f) =
    (λ later k. ground (arith, a later k, d later k), ground (arith, b, e), f ∙ c)

module _ (t : Directory) (o : Outside) (q : Message) where
  -- the recipients' results, one for each and in their order
  abbrev pub Match : Option String → List Instance → List MessageDeliveryResult → Type 0
  Match author [] [] = Unit
  Match author [] (r ∷ rs) = ⊥
  Match author (i ∷ instances) [] = ⊥
  Match author (i ∷ instances) (r ∷ rs) = Answers t o q author i r × Match author instances rs

  route_to_instances-Match :
      (author : Option String) (slug : String) (instances : List Instance) (w w' : World)
      (rs : List MessageDeliveryResult)
      → route_to_instances t o q author slug instances w ≡ returned rs w'
      → Match author instances rs × AllAccounted o.now rs w w'
  unfolding route_to_instances
  route_to_instances-Match author slug [] w w' rs e =
      let (same, left) = returned-inj [] rs w w' e in
      (
        subst (λ l. Match author [] l) same tt,
        subst (λ l. AllAccounted o.now l w w') same
            (subst (λ v. AllAccounted o.now [] w v) left
              ((λ later k. ground arith), omega arith, refl)),
      )
  route_to_instances-Match author slug (i ∷ instances) w w' rs e =
      elim (Outcome-cases (route_to_instance t o q author slug i w)) [
        | inr (error, v, x) ↦ absurd (cc (rw (x, route_to_instances) at e))
        | inl (r, v, x) ↦ elim (Outcome-cases (route_to_instances t o q author slug instances v)) [
          | inr (error, u, y) ↦ absurd (cc (rw (x, y, route_to_instances) at e))
          | inl (rest, u, y) ↦
              let (same, left) =
                returned-inj (r ∷ rest) rs u w' (rw (x, y, route_to_instances) at e) in
              let (accounted, answers) = route_to_instance-Answers t o q author slug i w v r x in
              let (matches, all) = route_to_instances-Match author slug instances v u rest y in
              (
                subst (λ l. Match author (i ∷ instances) l) same (answers, matches),
                subst (λ l. AllAccounted o.now l w w') same
                    (subst (λ z. AllAccounted o.now (r ∷ rest) w z) left
                      (AllAccounted-cons o.now r rest w v u accounted all)),
              )
        ]
      ]

  -- a state that the call left as it was, with one result that nothing was sent
  nothing_sent :
      (target : Option String) (reason : String) (w w' : World) (rs : List MessageDeliveryResult)
      → (opt_is (some reason) "routed_to_cerebellum") ≡ false
      → returned (undelivered target reason none ∷ []) w ≡ returned rs w'
      → AllAccounted o.now rs w w'
  nothing_sent target reason w w' rs f e =
      let (same, left) = returned-inj (undelivered target reason none ∷ []) rs w w' e in
      subst (λ l. AllAccounted o.now l w w') same
        (subst (λ v. AllAccounted o.now (undelivered target reason none ∷ []) w v) left
          ((λ later k. ground arith), omega arith, refl))

  route_to_recipients-AllAccounted :
      (slug : String) (instances : List Instance) (w w' : World) (rs : List MessageDeliveryResult)
      → route_to_recipients t o q slug instances w ≡ returned rs w'
      → AllAccounted o.now rs w w'
  unfolding route_to_recipients
  route_to_recipients-AllAccounted slug [] w w' rs e =
      nothing_sent (some slug) "no_active_instance" w w' rs refl e
  route_to_recipients-AllAccounted slug (i ∷ instances) w w' rs e =
      (route_to_instances-Match (author_user_id t o q) slug (i ∷ instances) w w' rs e).1

  -- When a message has been routed, its results say what happened: within the hour the rows due for
  -- each instance are as many more as there are results for it that were delivered or handed to the
  -- cerebellum, there is one more user turn for each delivered result, and no loop state has changed.
  pub route_message-AllAccounted :
      (w w' : World) (rs : List MessageDeliveryResult)
      → route_message t o q w ≡ returned rs w'
      → AllAccounted o.now rs w w'
  unfolding route_message
  route_message-AllAccounted w w' rs e = elim (Option-cases q.directive.target_entity) [
    | inl no_target ↦
        let (same, left) = returned-inj [] rs w w' (rw (no_target, route_message) at e) in
        subst (λ l. AllAccounted o.now l w w') same
          (subst (λ v. AllAccounted o.now [] w v) left
            ((λ later k. ground arith), omega arith, refl))
    | inr (slug, target) ↦ elim (one_or_none-cases (filter (has_slug t o q slug) t.entities)) [
      | inl absent ↦
          nothing_sent (some slug) "entity_not_found" w w' rs refl
            (rw (target, absent, route_message) at e)
      | inr (inr many) ↦ absurd (cc (rw (target, many, route_message) at e))
      | inr (inl (entity, only)) ↦
          route_to_recipients-AllAccounted slug (filter (is_recipient t o q entity.id) t.instances)
            w w' rs (rw (target, only, route_message) at e)
    ]
  ]

  -- When a message to an entity with an active instance has been routed, there is one result for each
  -- of these instances, in order; it is delivered exactly when a live passage joins the sender to the
  -- instance's membership of the workspace; else its reason is that a user's words went to the
  -- cerebellum, or that an agent's are not a neighbor's.
  pub route_message-Match :
      (slug : String) (entity : Entity) (i : Instance) (instances : List Instance) (w w' : World)
      (rs : List MessageDeliveryResult)
      → q.directive.target_entity ≡ some slug
      → filter (has_slug t o q slug) t.entities ≡ entity ∷ []
      → filter (is_recipient t o q entity.id) t.instances ≡ i ∷ instances
      → route_message t o q w ≡ returned rs w'
      → Match (author_user_id t o q) (i ∷ instances) rs
  unfolding route_message route_to_recipients
  route_message-Match slug entity i instances w w' rs target only recipients e =
      (route_to_instances-Match (author_user_id t o q) slug (i ∷ instances) w w' rs
        (rw (target, only, recipients, route_message) at e)).0
