-- ===== src/Inject/Queue/Lifecycle.antt =====
-- The life of a queue row over any sequence of operations (core/inject_queue.py).
use eyot_ai.Prelude.{
  ℕ, ◌+◌, ◌≤◌, String, ◌≡◌, ◌⊎◌, inl, inr, Bool, true, Option, none, some, List, [], ◌∷◌, ◌++◌,
  arith, update, Bool-cases, ◌∙◌, sym, ◌==◌, ◌&&◌,
}
use eyot_ai.Inject.Tldr.{TldrError}
use eyot_ai.Inject.Rows.{
  requested_event, learning_events, InjectStatus, pending, delivered, acked, failed, expired, Row,
  Store, Request, new_row,
}
use eyot_ai.Inject.Queue.{
  enqueue_inject, check_request, poll_pending_injects, ack_injects, mark_inject_failed,
  sweep_expired, sweep_old_completed, expire_own, due_rows, is_picked, is_overdue, with_status,
  is_ackable, ack_row, is_live, fail_row, is_stale, delete_row,
}

-- The calls of the queue, each with its clock.
pub data Call : Type 0 where
  enqueue : ℕ → Request → Call
  poll : ℕ → String → ℕ → Call
  ack : ℕ → List String → Call
  fail : ℕ → String → String → Call
  sweep : ℕ → Call
  sweep_old : ℕ → Call

unfoldable pub perform : Call → Store → Store
perform (enqueue now q) s = (enqueue_inject now q s).1
perform (poll now k limit) s = (poll_pending_injects now k limit s).1
perform (ack now queue_ids) s = (ack_injects now queue_ids s).1
perform (fail now q message) s = mark_inject_failed now q message s
perform (sweep now) s = (sweep_expired now s).1
perform (sweep_old now) s = (sweep_old_completed now s).1

unfoldable pub perform_all : List Call → Store → Store
unfolding perform
perform_all [] s = s
perform_all (c ∷ calls) s = perform_all calls (perform c s)

-- pending, then delivered, then acked or expired, then failed
abbrev pub stage : InjectStatus → ℕ
stage pending = 0
stage delivered = 1
stage acked = 2
stage expired = 2
stage failed = 3

-- A row later on: the same delivery, at the same stage with the same status or at a later one, and
-- deleted if it was.
pub record Advances (old new : Row) : Type 0 where
  pub same_id : new.id ≡ old.id
  pub same_instance : new.instance_id ≡ old.instance_id
  pub same_kind : new.kind ≡ old.kind
  pub same_mode : new.delivery_mode ≡ old.delivery_mode
  pub same_payload : new.payload ≡ old.payload
  pub onward : (new.status ≡ old.status) ⊎ (stage old.status + 1 ≤ stage new.status)

Advances-refl : (r : Row) → Advances r r
Advances-refl r = ground arith

Advances-trans : (a b c : Row) → Advances a b → Advances b c → Advances a c
Advances-trans a b c p q = record {
  same_id = q.same_id ∙ p.same_id;
  same_instance = q.same_instance ∙ p.same_instance;
  same_kind = q.same_kind ∙ p.same_kind;
  same_mode = q.same_mode ∙ p.same_mode;
  same_payload = q.same_payload ∙ p.same_payload;
  onward = later p.onward q.onward;
}
  where
    later :
        (b.status ≡ a.status) ⊎ (stage a.status + 1 ≤ stage b.status)
        → (c.status ≡ b.status) ⊎ (stage b.status + 1 ≤ stage c.status)
        → (c.status ≡ a.status) ⊎ (stage a.status + 1 ≤ stage c.status)
    later (inl e) (inl f) = inl (f ∙ e)
    later (inl e) (inr g) = inr (rw (sym e) g)
    later (inr g) (inl f) = inr (rw f g)
    later (inr g) (inr g') = inr (omega arith)

-- Every row of a table stands in the later table at its place, advanced; new rows follow.
abbrev pub Evolves : List Row → List Row → Type 0
Evolves [] new = Unit
Evolves (r ∷ old) [] = ⊥
Evolves (r ∷ old) (x ∷ new) = Advances r x × Evolves old new

Evolves-append : (l m : List Row) → Evolves l (l ++ m)
Evolves-append [] m = tt
Evolves-append (r ∷ l) m = (Advances-refl r, Evolves-append l m)

Evolves-refl : (l : List Row) → Evolves l l
Evolves-refl [] = tt
Evolves-refl (r ∷ l) = (Advances-refl r, Evolves-refl l)

Evolves-trans : (a b c : List Row) → Evolves a b → Evolves b c → Evolves a c
Evolves-trans [] b c p q = tt
Evolves-trans (r ∷ a) [] c p q = elim p [ ]
Evolves-trans (r ∷ a) (x ∷ b) [] p q = elim q [ ]
Evolves-trans (r ∷ a) (x ∷ b) (y ∷ c) p q =
    (Advances-trans r x y p.0 q.0, Evolves-trans a b c p.1 q.1)

Evolves-update :
    (p : Row → Bool) (f : Row → Row) (l : List Row)
    → ((r : Row) → p r ≡ true → Advances r (f r))
    → Evolves l (update p f l)
Evolves-update p f [] step = tt
Evolves-update p f (r ∷ l) step = elim (Bool-cases (p r)) [
  | inl e ↦ (rw e (step r e), Evolves-update p f l step)
  | inr e ↦ (rw e (Advances-refl r), Evolves-update p f l step)
]

fail_row-Advances : (now : ℕ) (message : String) (r : Row) → Advances r (fail_row now message r)
fail_row-Advances now message r = ground arith

poll-Evolves :
    (now : ℕ) (k : String) (limit : ℕ) (s : Store)
    → Evolves s.rows (poll_pending_injects now k limit s).1.rows
unfolding poll_pending_injects
poll-Evolves now k limit s =
    let rows = expire_own now k s.rows in
    let picked = due_rows now k limit rows in
    Evolves-trans s.rows rows (update (is_picked now k picked) (with_status now delivered) rows)
      (Evolves-update (λ r. (r.instance_id == k) && is_overdue now r) (with_status now expired)
        s.rows (λ r e. ground arith))
      (Evolves-update (is_picked now k picked) (with_status now delivered) rows
        (λ r e. ground arith))

ack-Evolves :
    (now : ℕ) (queue_ids : List String) (s : Store)
    → Evolves s.rows (ack_injects now queue_ids s).1.rows
unfolding ack_injects
ack-Evolves now [] s = Evolves-refl s.rows
ack-Evolves now (q ∷ queue_ids) s =
    Evolves-update (is_ackable (q ∷ queue_ids)) (ack_row now) s.rows (λ r e. ground arith)

enqueue-Evolves :
    (now : ℕ) (q : Request) (s : Store) → Evolves s.rows (enqueue_inject now q s).1.rows
unfolding enqueue_inject
enqueue-Evolves now q s =
    elim (check_request q)
      as (λ v.
        Evolves s.rows
          (elim v as (λ w. Option TldrError × Store) [
            | some e ↦ (some e, s)
            | none ↦ (
              none,
              record {
                rows = s.rows ++ new_row now q ∷ [];
                events =
                    (s.events ++ requested_event (new_row now q) q.tldr ∷ [])
                    ++ learning_events (new_row now q) q.tldr q.kind;
              },
            )
          ]).1.rows) [
            | some e ↦ Evolves-refl s.rows
            | none ↦ Evolves-append s.rows (new_row now q ∷ [])
          ]

perform-Evolves : (c : Call) (s : Store) → Evolves s.rows (perform c s).rows
unfolding perform mark_inject_failed sweep_expired sweep_old_completed
perform-Evolves (enqueue now q) s = enqueue-Evolves now q s
perform-Evolves (poll now k limit) s = poll-Evolves now k limit s
perform-Evolves (ack now queue_ids) s = ack-Evolves now queue_ids s
perform-Evolves (fail now q message) s =
    Evolves-update (is_live q) (fail_row now message) s.rows
      (λ r e. fail_row-Advances now message r)
perform-Evolves (sweep now) s =
    Evolves-update (is_overdue now) (with_status now expired) s.rows (λ r e. ground arith)
perform-Evolves (sweep_old now) s =
    Evolves-update (is_stale now) (delete_row now) s.rows (λ r e. ground arith)

-- Over any sequence of calls, with any clocks and arguments, every row of the table stays at its
-- place with its id, instance, kind, delivery mode and payload, and its status stays or moves on in
-- the order pending, delivered, acked or expired, failed: it is never pending or delivered again.
pub perform_all-Evolves :
    (calls : List Call) (s : Store) → Evolves s.rows (perform_all calls s).rows
unfolding perform_all
perform_all-Evolves [] s = Evolves-refl s.rows
perform_all-Evolves (c ∷ calls) s =
    Evolves-trans s.rows (perform c s).rows (perform_all calls (perform c s)).rows
      (perform-Evolves c s) (perform_all-Evolves calls (perform c s))
