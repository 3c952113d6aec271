-- ===== src/Messaging/Total.antt =====
-- Where routing raises no exception (core/message_router.py). The index of slugs is unique only within
-- a namespace, so that the number of the target's entities is a hypothesis.
use eyot_ai.Prelude.{
  ◌≤◌, String, ◌≡◌, inl, inr, refl, sym, true, Option, none, some, List, [], ◌∷◌, arith,
  if◌then◌else◌, Option-cases, length, filter, subst,
}
use eyot_ai.Text.{take_chars}
use eyot_ai.Models.{Instance, one_or_none, one_or_none-cases, several}
use eyot_ai.Audit.{Event}
use eyot_ai.Harness.State.{is_active_row, is_running}
use eyot_ai.Topology.Passages.{Passage, find_active_passage_between}
use eyot_ai.Inject.Rows.{DeliveryMode, soft_inject, wake, cerebellum_route, collab_inject, notify}
use eyot_ai.Inject.Tldr.{compute_prose_length}
use eyot_ai.Messaging.{Directory, Outside, World, Outcome, returned}
use eyot_ai.Messaging.Parts.{delivery_mode_for_instance, enqueue, conclude, undelivered}
use eyot_ai.Messaging.Clear.{starts_clear, turn_text-starts_clear}
use eyot_ai.Messaging.Enqueued.{enqueue-returned}
use eyot_ai.Messaging.Sending.{
  Message, turn_text, told_cerebellum, cerebellum_payload, route_to_cerebellum, not_neighbor,
  announced, collab_payload, schedule, deliver,
}
use eyot_ai.Messaging.Router.{
  is_seat, route_to_instance, route_to_instances, author_user_id, has_slug, is_recipient,
  route_to_recipients, route_message,
}
use eyot_ai.Messaging.Delivered.{route_to_instance-Answers}
use eyot_ai.Messaging.Accounts.{Accounted, announced-keeps}

-- the unique index of `instance_loop_states`
abbrev pub HasOneState : World → Type 0
HasOneState w = (k : String) → length (filter (is_active_row k) w.harness.states) ≤ 1

not_several : {A : Type 0} (l : List A) → length l ≤ 1 → ¬ (one_or_none l ≡ several)
not_several [] h e = cc e
not_several (x ∷ []) h e = cc e
not_several (x ∷ y ∷ l) h e = omega (arith, h)

delivery_mode-some :
    (k : String) (w : World)
    → HasOneState w
    → (mode : DeliveryMode) × (delivery_mode_for_instance k w ≡ some mode)
unfolding delivery_mode_for_instance
delivery_mode-some k w h =
    let rows = filter (is_active_row k) w.harness.states in
    elim (one_or_none-cases rows) [
      | inl empty ↦ (wake, rw (empty, delivery_mode_for_instance) refl)
      | inr (inl (s, only)) ↦ (
        if is_running s.loop_status then soft_inject else wake,
        rw (only, delivery_mode_for_instance) refl,
      )
      | inr (inr many) ↦ absurd (not_several rows (h k) many)
    ]

module _ (t : Directory) (o : Outside) (q : Message)
    (clear : starts_clear q.directive.cmd ≡ true) where
  text_clear : starts_clear (turn_text t o q) ≡ true
  text_clear = turn_text-starts_clear q.directive q.general_text clear

  abbrev Returns : {A : Type 0} → Outcome A → Type 0
  Returns {A} x = (a : A) × (w : World) × (x ≡ returned a w)

  route_to_cerebellum-Returns :
      (k : String) (to author : Option String) (w : World)
      → Returns (route_to_cerebellum t o q (some k) to author w)
  unfolding route_to_cerebellum compute_prose_length
  route_to_cerebellum-Returns k to author w =
      let told = told_cerebellum t o q (some k) to author w in
      let (left, e) =
        enqueue-returned o k cerebellum_route notify (cerebellum_payload t o q) (turn_text t o q)
          told text_clear (omega arith) in
      subst
        (λ x.
          Returns
            (conclude (undelivered q.directive.target_entity "routed_to_cerebellum" (some k)) x))
        (sym e) (_, left, refl)

  deliver-Returns :
      (slug k to : String) (p : Passage) (w : World)
      → HasOneState w
      → Returns (deliver t o q slug k to p w)
  unfolding deliver schedule compute_prose_length
  deliver-Returns slug k to p w h =
      let sent = announced t o q slug k to p w in
      let kept : HasOneState sent = λ j.
        subst (λ l. length (filter (is_active_row j) l) ≤ 1)
          (sym (announced-keeps t o q slug k to p w).2) (h j) in
      let (mode, found) = delivery_mode-some k sent kept in
      let (left, e) =
        enqueue-returned o k collab_inject mode (collab_payload t o q slug p) (turn_text t o q) sent
          text_clear (omega arith) in
      let step : deliver t o q slug k to p w
          ≡ schedule t o q slug k (
              enqueue o k collab_inject mode (collab_payload t o q slug p)
                (take_chars 200 (turn_text t o q)) sent) =
        rw (found, deliver) refl in
      subst Returns (sym step) (subst (λ x. Returns (schedule t o q slug k x)) (sym e) (_, _, refl))

  not_neighbor-Returns :
      (author : Option String) (k : String) (to : Option String) (blocked : Event) (w : World)
      → Returns (not_neighbor t o q author k to blocked w)
  unfolding not_neighbor
  not_neighbor-Returns none k to blocked w = (_, _, refl)
  not_neighbor-Returns (some a) k to blocked w = route_to_cerebellum-Returns k to (some a) w

  module _ (seats : (k : String) → length (filter (is_seat t o q k) t.memberships) ≤ 1) where
    route_to_instance-Returns :
        (author : Option String) (slug : String) (i : Instance) (w : World)
        → HasOneState w
        → Returns (route_to_instance t o q author slug i w)
    unfolding route_to_instance
    route_to_instance-Returns author slug i w h =
        let rows = filter (is_seat t o q i.id) t.memberships in
        elim (one_or_none-cases rows) [
          | inl empty ↦ rw (empty, route_to_instance) (not_neighbor-Returns author i.id none _ w)
          | inr (inr many) ↦ absurd (not_several rows (seats i.id) many)
          | inr (inl (m, only)) ↦
              elim (Option-cases
                (find_active_passage_between q.workspace_id q.from_membership_id m.id t.passages)) [
                  | inl missing ↦
                      rw (only, missing, route_to_instance)
                        (not_neighbor-Returns author i.id (some m.id) _ w)
                  | inr (p, found) ↦
                      rw (only, found, route_to_instance) (deliver-Returns slug i.id m.id p w h)
                ]
        ]

    route_to_instances-Returns :
        (author : Option String) (slug : String) (instances : List Instance) (w : World)
        → HasOneState w
        → Returns (route_to_instances t o q author slug instances w)
    unfolding route_to_instances Accounted
    route_to_instances-Returns author slug [] w h = (_, _, refl)
    route_to_instances-Returns author slug (i ∷ instances) w h =
        let (r, v, x) = route_to_instance-Returns author slug i w h in
        let states = (route_to_instance-Answers t o q author slug i w v r x).0.2 in
        let still : HasOneState v =
          λ j. subst (λ l. length (filter (is_active_row j) l) ≤ 1) (sym states) (h j) in
        let (rs, u, y) = route_to_instances-Returns author slug instances v still in
        (r ∷ rs, u, rw (x, y, route_to_instances) refl)

    route_to_recipients-Returns :
        (slug : String) (instances : List Instance) (w : World)
        → HasOneState w
        → Returns (route_to_recipients t o q slug instances w)
    unfolding route_to_recipients
    route_to_recipients-Returns slug [] w h = (_, _, refl)
    route_to_recipients-Returns slug (i ∷ instances) w h =
        route_to_instances-Returns (author_user_id t o q) slug (i ∷ instances) w h

    -- Routing a message returns results, where no two live rows share a membership's instance and
    -- workspace, an instance's loop state or the target's slug, and the command begins with no space:
    -- no query finds several rows, and no text is refused by the queue.
    pub route_message-Returns :
        (w : World)
        → HasOneState w
        → ((slug : String)
            → q.directive.target_entity ≡ some slug
            → length (filter (has_slug t o q slug) t.entities) ≤ 1)
        → Returns (route_message t o q w)
    unfolding route_message
    route_message-Returns w h slugs = elim (Option-cases q.directive.target_entity) [
      | inl no_target ↦ rw (no_target, route_message) ([], w, refl)
      | inr (slug, target) ↦
          let rows = filter (has_slug t o q slug) t.entities in
          elim (one_or_none-cases rows) [
            | inl absent ↦ rw (target, absent, route_message) (_, _, refl)
            | inr (inr many) ↦ absurd (not_several rows (slugs slug target) many)
            | inr (inl (entity, only)) ↦
                rw (target, only, route_message)
                  (route_to_recipients-Returns slug
                    (filter (is_recipient t o q entity.id) t.instances) w h)
          ]
    ]
