-- ===== src/Messaging/Enqueued.antt =====
-- What one enqueue of the router does (core/message_router.py over core/inject_queue.py).
use eyot_ai.Prelude.{
  ℕ, ◌≤◌, ◌+◌, String, ◌≡◌, ◌⊎◌, inl, inr, refl, ap, sym, ◌∙◌, Bool, true, false, some, List, [],
  ◌∷◌, ◌++◌, arith, if◌then◌else◌, Option-cases, count, length, filter, ltb, ◌&&◌, ◌==◌,
  length-append,
}
use eyot_ai.Json.{Fields, obj}
use eyot_ai.Text.{len, is_blank, take_chars}
use eyot_ai.Inject.Tldr.{compute_prose_length, has_tldr}
use eyot_ai.Inject.Rows.{InjectKind, DeliveryMode, Request, Store, new_row}
use eyot_ai.Inject.Queue.{is_due, enqueue_inject}
use eyot_ai.Inject.Queue.Requests.{enqueue_inject-none_iff, enqueue_inject-due}
use eyot_ai.Messaging.{Outside, World, returned, state_of}
use eyot_ai.Messaging.Parts.{enqueue}
use eyot_ai.Messaging.Clear.{starts_clear, len-take_chars-le, take_chars-clear}

count-filter : {A : Type 0} (p : A → Bool) (l : List A) → count p l ≡ length (filter p l)
count-filter p [] = refl
count-filter p (x ∷ l) = ground (arith, count-filter p l)

-- counted as it is listed
count_of_filter :
    {A : Type 0} (p : A → Bool) (l m : List A) (b : Bool) (x : A)
    → filter p l ≡ filter p m ++ (if b then x ∷ [] else [])
    → count p l ≡ count p m + (if b then 1 else 0)
count_of_filter p l m true x e =
    omega
      (arith, count-filter p l, count-filter p m, ap length e, length-append (filter p m) (x ∷ []))
count_of_filter p l m false x e =
    omega (arith, count-filter p l, count-filter p m, ap length e, length-append (filter p m) [])

module _ (o : Outside) (k : String) (kind : InjectKind) (mode : DeliveryMode)
    (payload : Fields) where
  abbrev request : String → World → Request
  request tldr w = record {
    id = o.uuid4 w.drawn;
    instance_id = k;
    kind = kind;
    delivery_mode = mode;
    payload = payload;
    tldr = some tldr;
  }

  abbrev store_of : World → Store
  store_of w = record { rows = w.injects; events = w.harness.events }

  -- An enqueue that returns adds one row, due for the instance for an hour, and keeps the rest of the
  -- state but the audit log.
  pub enqueue-due :
      (tldr : String) (w w' : World) (u : Unit)
      → enqueue o k kind mode payload tldr w ≡ returned u w'
      → ((later : ℕ) (j : String)
          → count (is_due later j) w'.injects
            ≡ count (is_due later j) w.injects
              + (if (k == j) && ltb later (o.now + 3600000000) then 1 else 0))
        × (w'.turns ≡ w.turns)
        × (w'.tasks ≡ w.tasks)
        × (w'.messages ≡ w.messages)
        × (w'.harness.states ≡ w.harness.states)
        × (w'.harness.registry ≡ w.harness.registry)
  unfolding enqueue
  enqueue-due tldr w w' u e =
      elim (Option-cases (enqueue_inject o.now (request tldr w) (store_of w)).0) [
        | inr (x, refused) ↦ absurd (cc (rw (refused, enqueue) at e))
        | inl accepted ↦
            let left = ap state_of (rw (accepted, enqueue) at e) in
            (
              λ later j.
                  ap (λ v. count (is_due later j) v.injects) (sym left)
                  ∙ count_of_filter (is_due later j)
                      (enqueue_inject o.now (request tldr w) (store_of w)).1.rows w.injects
                      ((k == j) && ltb later (o.now + 3600000000)) (new_row o.now (request tldr w))
                      (enqueue_inject-due o.now later j (request tldr w) (store_of w) accepted),
              sym (ap (λ v. v.turns) left),
              sym (ap (λ v. v.tasks) left),
              sym (ap (λ v. v.messages) left),
              sym (ap (λ v. v.harness.states) left),
              sym (ap (λ v. v.harness.registry) left),
            )
      ]

  -- A text that begins with no space is enqueued with its first 200 characters.
  pub enqueue-returned :
      (text : String) (w : World)
      → starts_clear text ≡ true
      → compute_prose_length (obj payload) ≡ len text
      → (w' : World) × (enqueue o k kind mode payload (take_chars 200 text) w ≡ returned tt w')
  unfolding enqueue
  enqueue-returned text w h e =
      let clear = take_chars-clear 199 text h in
      let settle : (text ≡ "") ⊎ (is_blank (take_chars 200 text) ≡ false)
          → (compute_prose_length (obj payload) ≤ 240)
            ⊎ (has_tldr (some (take_chars 200 text)) ≡ true) =
        λ c. elim c [
          | inl empty ↦ inl (omega (arith, e, ap len empty))
          | inr b ↦ inr (ground arith)
        ] in
      let short = len-take_chars-le 200 text in
      let (accepted, _) =
        enqueue_inject-none_iff o.now (request (take_chars 200 text) w) (store_of w) in
      let fits = accepted.1 (ground arith, settle clear) in
      (state_of (enqueue o k kind mode payload (take_chars 200 text) w), rw (fits, enqueue) refl)
