-- ===== src/Messaging/Turns.antt =====
-- What the transcript and a user turn change (services/composer_transcript.py, core/composer_turns.py).
use eyot_ai.Prelude.{
  ◌+◌, String, ◌≡◌, inl, inr, refl, ap, ◌∙◌, List, [], ◌∷◌, ◌++◌, arith, if◌then◌else◌, Bool-cases,
  Option-cases, is_none, find, length, length-append, ◌==◌,
}
use eyot_ai.Harness.Breakers.{emit_plain}
use eyot_ai.Messaging.{Directory, Outside, World}
use eyot_ai.Messaging.Composer.{
  MessageDraft, append_composer_message, UserTurn, schedule_user_turn, append_turn, user_draft,
  assistant_draft,
}

-- the parts that a transcript row leaves alone
abbrev pub AreKept : World → World → Type 0
AreKept w w' =
    (w'.injects ≡ w.injects)
    × (w'.turns ≡ w.turns)
    × (w'.tasks ≡ w.tasks)
    × (w'.harness ≡ w.harness)

pub AreKept-trans : (u v w : World) → AreKept u v → AreKept v w → AreKept u w
AreKept-trans u v w (a, b, c, d) (e, f, g, h) = (e ∙ a, f ∙ b, g ∙ c, h ∙ d)

length_of_snoc : {A : Type 0} {l m : List A} → l ≡ m → (x : A) → length (l ++ x ∷ []) ≡ length m + 1
length_of_snoc {A} {l} {m} e x = omega (arith, length-append l (x ∷ []), ap length e)

pub append_composer_message-AreKept :
    (t : Directory) (o : Outside) (d : MessageDraft) (w : World)
    → AreKept w (append_composer_message t o d w).1
unfolding append_composer_message
append_composer_message-AreKept t o d w =
    elim (Option-cases (find (λ s. s.id == d.workspace_id) t.workspaces)) [
      | inl missing ↦ rw (missing, append_composer_message) (refl, refl, refl, refl)
      | inr (s, there) ↦ elim (Bool-cases (is_none s.deleted_at)) [
        | inl live ↦ rw (there, live, append_composer_message) (refl, refl, refl, refl)
        | inr gone ↦ rw (there, gone, append_composer_message) (refl, refl, refl, refl)
      ]
    ]

pub append_turn-AreKept :
    (t : Directory) (o : Outside) (u : UserTurn) (turn_id : String) (w : World)
    → AreKept w (append_turn t o u turn_id w).1
unfolding append_turn
append_turn-AreKept t o u turn_id w =
    AreKept-trans w (append_composer_message t o (user_draft t u turn_id) w).1
      (append_turn t o u turn_id w).1
      (append_composer_message-AreKept t o (user_draft t u turn_id) w)
      (append_composer_message-AreKept t o (assistant_draft u turn_id)
        (append_composer_message t o (user_draft t u turn_id) w).1)

pub schedule_user_turn-keeps :
    (t : Directory) (o : Outside) (u : UserTurn) (w : World)
    → ((schedule_user_turn t o u w).1.injects ≡ w.injects)
      × (length (schedule_user_turn t o u w).1.turns ≡ length w.turns + 1)
      × (length (schedule_user_turn t o u w).1.tasks
          ≡ length w.tasks + (if o.tunnel_takes u.instance_id then 0 else 1))
      × ((schedule_user_turn t o u w).1.harness.states ≡ w.harness.states)
unfolding schedule_user_turn emit_plain
schedule_user_turn-keeps t o u w =
    let v : World = record w { drawn = w.drawn + 1 } in
    let (injects, turns, tasks, harness) = append_turn-AreKept t o u (o.uuid4 w.drawn) v in
    (
      injects,
      length_of_snoc turns _,
      elim (Bool-cases (o.tunnel_takes u.instance_id)) [
        | inl takes ↦ rw takes (omega (arith, ap length tasks))
        | inr refuses ↦ rw refuses (length_of_snoc tasks _)
      ],
      ap (λ h. h.states) harness,
    )
