-- ===== src/Messaging/Accounts.antt =====
-- The results of a routed message, against what it left in the queue and among the turns
-- (core/message_router.py).
use eyot_ai.Prelude.{
  ℕ, ◌+◌, String, ◌≡◌, inl, inr, refl, ap, sym, ◌∙◌, Bool, true, false, Option, some, List, arith,
  if◌then◌else◌, Option-cases, opt_is, count, length, ltb, ◌&&◌, ◌||◌, ◌==◌,
}
use eyot_ai.Harness.Breakers.{emit_plain}
use eyot_ai.Topology.Passages.{Passage}
use eyot_ai.Json.{Fields}
use eyot_ai.Text.{take_chars}
use eyot_ai.Inject.Rows.{InjectKind, DeliveryMode, cerebellum_route, collab_inject, notify}
use eyot_ai.Inject.Queue.{is_due}
use eyot_ai.Messaging.{
  Directory, Outside, World, ComposerTurnState, MessageDeliveryResult, Outcome, returned, raised,
  state_of,
}
use eyot_ai.Messaging.Parts.{enqueue, conclude, delivery_mode_for_instance}
use eyot_ai.Messaging.Sending.{
  Message, blocked_cerebellum, transcript, told_cerebellum, route_to_cerebellum, cerebellum_payload,
  collab_payload, user_turn, turn_text, announced, schedule, deliver,
}
use eyot_ai.Messaging.Turns.{
  AreKept-trans, append_composer_message-AreKept, schedule_user_turn-keeps,
}
use eyot_ai.Messaging.Enqueued.{enqueue-due}

-- the words reached the instance's queue
abbrev pub is_queued : String → MessageDeliveryResult → Bool
is_queued k r = opt_is r.instance_id k && (r.delivered || opt_is r.reason "routed_to_cerebellum")

abbrev pub one_if : Bool → ℕ
one_if b = if b then 1 else 0

-- what one recipient's result says of the state before and after
unfoldable pub Accounted : ℕ → MessageDeliveryResult → World → World → Type 0
Accounted now r w w' =
    ((later : ℕ) (k : String)
      → count (is_due later k) w'.injects
        ≡ count (is_due later k) w.injects + one_if (is_queued k r && ltb later (now + 3600000000)))
    × (length w'.turns ≡ length w.turns + one_if r.delivered)
    × (w'.harness.states ≡ w.harness.states)

pub returned-inj :
    {A : Type 0} (a b : A) (w w' : World) → returned a w ≡ returned b w' → (a ≡ b) × (w ≡ w')
returned-inj a b w w' e = (cc, ap state_of e)

pub conclude-returned :
    (r r' : MessageDeliveryResult) (x : Outcome Unit) (w' : World)
    → conclude r x ≡ returned r' w'
    → (x ≡ returned tt w') × (r ≡ r')
conclude-returned r r' (raised error w) w' e = absurd (cc e)
conclude-returned r r' (returned u w) w' e =
    let (same, left) = returned-inj r r' w w' e in (cc (left), same)

-- behind an enqueue whose state agrees with the first one
enqueued_Accounted :
    (o : Outside) (k : String) (kind : InjectKind) (mode : DeliveryMode) (payload : Fields)
    (tldr : String) (u v w : World) (r : MessageDeliveryResult)
    → (v.injects ≡ u.injects) × (v.turns ≡ u.turns) × (v.harness.states ≡ u.harness.states)
    → enqueue o k kind mode payload tldr v ≡ returned tt w
    → ((later : ℕ) (j : String)
        → count (is_due later j) w.injects
          ≡ count (is_due later j) u.injects + one_if ((k == j) && ltb later (o.now + 3600000000)))
      × (w.turns ≡ u.turns)
      × (w.harness.states ≡ u.harness.states)
enqueued_Accounted o k kind mode payload tldr u v w r (injects, turns, states) e =
    let (due, t, _, _, s, _) = enqueue-due o k kind mode payload tldr v w tt e in
    (
      λ later j.
          due later j
          ∙ ap (λ l. count (is_due later j) l + one_if ((k == j) && ltb later (o.now + 3600000000)))
              injects,
      t ∙ turns,
      s ∙ states,
    )

and_true : (a : Bool) → (a && true) ≡ a
and_true a = ground arith

accounted_of :
    {m : ℕ} (n : ℕ) {a b : Bool} (c : Bool)
    → m ≡ n + one_if (a && c)
    → b ≡ a
    → m ≡ n + one_if (b && c)
accounted_of n c e h = rw h e

turned_of :
    {l m : List ComposerTurnState} {b : Bool} → l ≡ m → b ≡ false → length l ≡ length m + one_if b
turned_of e h = rw h (omega (arith, ap length e))

module _ (t : Directory) (o : Outside) (q : Message) where
  told_cerebellum-keeps :
      (k to author : Option String) (w : World)
      → ((told_cerebellum t o q k to author w).injects ≡ w.injects)
        × ((told_cerebellum t o q k to author w).turns ≡ w.turns)
        × ((told_cerebellum t o q k to author w).harness.states ≡ w.harness.states)
  unfolding told_cerebellum emit_plain
  told_cerebellum-keeps k to author w =
      let blocked = blocked_cerebellum t o q k to w in
      let asked = transcript t o q "user" (turn_text t o q) k author blocked in
      let (injects, turns, _, harness) =
        AreKept-trans blocked asked (told_cerebellum t o q k to author w)
          (append_composer_message-AreKept t o _ blocked)
          (append_composer_message-AreKept t o _ asked) in
      (injects, turns, ap (λ h. h.states) harness)

  pub route_to_cerebellum-Accounted :
      (k : String) (to author : Option String) (w w' : World) (r : MessageDeliveryResult)
      → route_to_cerebellum t o q (some k) to author w ≡ returned r w'
      → Accounted o.now r w w'
  unfolding route_to_cerebellum Accounted
  route_to_cerebellum-Accounted k to author w w' r e =
      let told = told_cerebellum t o q (some k) to author w in
      let (x, same) = conclude-returned _ r _ w' e in
      let (due, turns, states) =
        enqueued_Accounted o k cerebellum_route notify (cerebellum_payload t o q)
          (take_chars 200 (turn_text t o q)) w told w' r
          (told_cerebellum-keeps (some k) to author w) x in
      (
        λ later j.
            accounted_of (count (is_due later j) w.injects) (ltb later (o.now + 3600000000))
              (due later j) (ap (is_queued j) (sym same) ∙ and_true (k == j)),
        turned_of turns (ap (λ x. x.delivered) (sym same)),
        states,
      )

  pub announced-keeps :
      (slug k to : String) (p : Passage) (w : World)
      → ((announced t o q slug k to p w).injects ≡ w.injects)
        × ((announced t o q slug k to p w).turns ≡ w.turns)
        × ((announced t o q slug k to p w).harness.states ≡ w.harness.states)
  unfolding announced emit_plain
  announced-keeps slug k to p w = (refl, refl, refl)

  schedule-Accounted :
      (slug k : String) (x : Outcome Unit) (w w' : World) (r : MessageDeliveryResult)
      → schedule t o q slug k x ≡ returned r w'
      → ((v : World)
          → x ≡ returned tt v
          → ((later : ℕ) (j : String)
              → count (is_due later j) v.injects
                ≡ count (is_due later j) w.injects
                  + one_if ((k == j) && ltb later (o.now + 3600000000)))
            × (v.turns ≡ w.turns)
            × (v.harness.states ≡ w.harness.states))
      → Accounted o.now r w w'
  unfolding schedule Accounted
  schedule-Accounted slug k (raised error v) w w' r e h = absurd (cc e)
  schedule-Accounted slug k (returned u v) w w' r e h =
      let (same, left) = returned-inj _ r _ w' e in
      let (due, turns, states) = h v refl in
      let (kept, more, _, still) = schedule_user_turn-keeps t o (user_turn t o q slug k) v in
      (
        λ later j.
            ap (λ v'. count (is_due later j) v'.injects) (sym left)
            ∙ ap (count (is_due later j)) kept
            ∙ accounted_of (count (is_due later j) w.injects) (ltb later (o.now + 3600000000))
                (due later j) (ap (is_queued j) (sym same) ∙ and_true (k == j)),
        ap (λ v'. length v'.turns) (sym left)
            ∙ more
            ∙ omega (arith, ap length turns)
            ∙ ap (λ x. length w.turns + one_if x.delivered) same,
        ap (λ v'. v'.harness.states) (sym left) ∙ still ∙ states,
      )

  pub deliver-Accounted :
      (slug k to : String) (p : Passage) (w w' : World) (r : MessageDeliveryResult)
      → deliver t o q slug k to p w ≡ returned r w'
      → Accounted o.now r w w'
  unfolding deliver
  deliver-Accounted slug k to p w w' r e =
      let sent = announced t o q slug k to p w in
      elim (Option-cases (delivery_mode_for_instance k sent)) [
        | inl several ↦ absurd (cc (rw (several, deliver) at e))
        | inr (mode, found) ↦ schedule-Accounted slug k _ w w' r (rw (found, deliver) at e) (λ v x.
            enqueued_Accounted o k collab_inject mode (collab_payload t o q slug p)
              (take_chars 200 (turn_text t o q)) w sent v r (announced-keeps slug k to p w) x)
      ]
