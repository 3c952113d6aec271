-- ===== src/Messaging/Delivered.antt =====
-- The result for one recipient (core/message_router.py, the body of the loop of `route_message`).
use eyot_ai.Prelude.{
  ℕ, ◌+◌, String, ◌≡◌, ◌↔◌, inl, inr, refl, ap, sym, subst, ◌∙◌, Bool, true, false, Option, none,
  some, arith, if◌then◌else◌, Option-cases, is_none, count, length, filter, ltb, ◌&&◌, ◌==◌, In,
  In-filter,
}
use eyot_ai.Models.{Instance, Membership, one_or_none-cases}
use eyot_ai.Audit.{Event}
use eyot_ai.Harness.Breakers.{emit_plain}
use eyot_ai.Topology.Passages.{Passage, find_active_passage_between}
use eyot_ai.Topology.Passages.Neighbors.{find_active_passage_between-Joined}
use eyot_ai.Topology.Acyclic.Reach.{Joined}
use eyot_ai.Inject.Queue.{is_due}
use eyot_ai.Messaging.{Directory, Outside, World, MessageDeliveryResult, Outcome, returned, raised}
use eyot_ai.Messaging.Parts.{delivery_mode_for_instance, undelivered}
use eyot_ai.Messaging.Sending.{
  Message, route_to_cerebellum, not_neighbor, announced, schedule, deliver,
}
use eyot_ai.Messaging.Router.{is_seat, route_to_instance}
use eyot_ai.Messaging.Accounts.{
  is_queued, one_if, Accounted, returned-inj, conclude-returned, route_to_cerebellum-Accounted,
  deliver-Accounted,
}

and_false : (a : Bool) → (a && false) ≡ false
and_false a = ground arith

unchanged : (n : ℕ) {b : Bool} (c : Bool) → b ≡ false → n ≡ n + one_if (b && c)
unchanged n c e = rw e (omega arith)

module _ (t : Directory) (o : Outside) (q : Message) where
  -- a live passage of the workspace joins the sender to the instance's membership
  abbrev pub HasPassage : String → Type 0
  HasPassage k =
      (m : Membership) × In m t.memberships
      × (is_seat t o q k m ≡ true)
      × Joined q.workspace_id t.passages q.from_membership_id m.id

  -- why a message is not delivered: by whether a user sent it
  abbrev pub refusal : Option String → String
  refusal author = if is_none author then "not_neighbor" else "routed_to_cerebellum"

  abbrev pub Answers : Option String → Instance → MessageDeliveryResult → Type 0
  Answers author i r =
      (r.instance_id ≡ some i.id)
      × ((r.delivered ≡ true) ↔ HasPassage i.id)
      × (r.delivered ≡ false → r.reason ≡ some (refusal author))

  route_to_cerebellum-result :
      (k : String) (to author : Option String) (w w' : World) (r : MessageDeliveryResult)
      → route_to_cerebellum t o q (some k) to author w ≡ returned r w'
      → undelivered q.directive.target_entity "routed_to_cerebellum" (some k) ≡ r
  unfolding route_to_cerebellum
  route_to_cerebellum-result k to author w w' r e = (conclude-returned _ r _ w' e).1

  undelivered-Answers :
      (author : Option String) (i : Instance) (r : MessageDeliveryResult)
      → undelivered q.directive.target_entity (refusal author) (some i.id) ≡ r
      → ¬ HasPassage i.id
      → Answers author i r
  undelivered-Answers author i r e no_passage = (
    ap (λ x. x.instance_id) (sym e),
    (λ d. absurd (cc (ap (λ x. x.delivered) e)), λ p. absurd (no_passage p)),
    λ _. ap (λ x. x.reason) (sym e),
  )

  not_neighbor-Answers :
      (author : Option String) (i : Instance) (to : Option String) (blocked : Event) (w w' : World)
      (r : MessageDeliveryResult)
      → ¬ HasPassage i.id
      → not_neighbor t o q author i.id to blocked w ≡ returned r w'
      → Accounted o.now r w w' × Answers author i r
  unfolding not_neighbor Accounted emit_plain
  not_neighbor-Answers none i to blocked w w' r apart e =
      let (same, left) = returned-inj _ r _ w' e in
      (
        (
          λ later k.
              ap (λ v. count (is_due later k) v.injects) (sym left)
              ∙ unchanged (count (is_due later k) w.injects) (ltb later (o.now + 3600000000))
                  (ap (is_queued k) (sym same) ∙ and_false (i.id == k)),
          ap (λ v. length v.turns) (sym left) ∙ ground (arith, ap (λ x. x.delivered) same),
          ap (λ v. v.harness.states) (sym left),
        ),
        undelivered-Answers none i r same apart,
      )
  not_neighbor-Answers (some a) i to blocked w w' r apart e = (
    route_to_cerebellum-Accounted t o q i.id to (some a) w w' r e,
    undelivered-Answers (some a) i r (route_to_cerebellum-result i.id to (some a) w w' r e) apart,
  )

  schedule-result :
      (slug k : String) (x : Outcome Unit) (w' : World) (r : MessageDeliveryResult)
      → schedule t o q slug k x ≡ returned r w'
      → (r.instance_id ≡ some k) × (r.delivered ≡ true)
  unfolding schedule
  schedule-result slug k (raised error v) w' r e = absurd (cc e)
  schedule-result slug k (returned u v) w' r e =
      let same = (returned-inj _ r _ w' e).0 in
      (ap (λ x. x.instance_id) (sym same), ap (λ x. x.delivered) (sym same))

  deliver-result :
      (slug k to : String) (p : Passage) (w w' : World) (r : MessageDeliveryResult)
      → deliver t o q slug k to p w ≡ returned r w'
      → (r.instance_id ≡ some k) × (r.delivered ≡ true)
  unfolding deliver
  deliver-result slug k to p w w' r e =
      elim (Option-cases (delivery_mode_for_instance k (announced t o q slug k to p w))) [
        | inl many ↦ absurd (cc (rw (many, deliver) at e))
        | inr (mode, found) ↦ schedule-result slug k _ w' r (rw (found, deliver) at e)
      ]

  pub route_to_instance-Answers :
      (author : Option String) (slug : String) (i : Instance) (w w' : World)
      (r : MessageDeliveryResult)
      → route_to_instance t o q author slug i w ≡ returned r w'
      → Accounted o.now r w w' × Answers author i r
  unfolding route_to_instance
  route_to_instance-Answers author slug i w w' r e =
      elim (one_or_none-cases (filter (is_seat t o q i.id) t.memberships)) [
        | inl empty ↦
            not_neighbor-Answers author i none _ w w' r
              (λ (m, there, seat, _). absurd (
                subst (In m) empty
                  ((In-filter (is_seat t o q i.id) t.memberships m).1 (there, seat))))
              (rw (empty, route_to_instance) at e)
        | inr (inr many) ↦ absurd (cc (rw (many, route_to_instance) at e))
        | inr (inl (m, only)) ↦
            let (there, seat) =
              (In-filter (is_seat t o q i.id) t.memberships m).0 (rw only (inl refl)) in
            let (_, joined, apart) =
              find_active_passage_between-Joined q.workspace_id q.from_membership_id m.id
                t.passages in
            elim (Option-cases
              (find_active_passage_between q.workspace_id q.from_membership_id m.id t.passages)) [
                | inl missing ↦
                    not_neighbor-Answers author i (some m.id) _ w w' r
                      (λ (m', there', seat', j).
                        let one =
                          subst (In m') only
                            ((In-filter (is_seat t o q i.id) t.memberships m').1 (there', seat')) in
                        elim one [
                          | inl e' ↦ apart missing (
                              subst
                                (λ x. Joined q.workspace_id t.passages q.from_membership_id x.id) e'
                                j)
                          | inr none_else ↦ none_else
                        ])
                      (rw (only, missing, route_to_instance) at e)
                | inr (p, found) ↦
                    let sent = rw (only, found, route_to_instance) at e in
                    let (k, d) = deliver-result slug i.id m.id p w w' r sent in
                    (
                      deliver-Accounted t o q slug i.id m.id p w w' r sent,
                      (
                        k,
                        ((λ _. (m, there, seat, joined p found)), (λ _. d)),
                        λ f. absurd (cc (sym f ∙ d)),
                      ),
                    )
              ]
      ]
