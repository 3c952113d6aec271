-- ===== src/Topology/Acyclic/Correct.antt =====
-- `check_acyclic` decides connectedness (core/topology.py).
use eyot_ai.Prelude.{
  ℕ, zero, suc, ◌<◌, String, ◌≡◌, ◌↔◌, Bool, true, false, some, List, [], ◌∷◌, ◌==◌, eq_iff,
  eq_refl, arith, contains, inl, inr, Bool-cases, sym, ◌∙◌, subst, not, count-le-length,
}
use eyot_ai.Topology.Passages.{Passage}
use eyot_ai.Topology.Acyclic.{links, Search, scan, search_from, fuel_for, check_acyclic}
use eyot_ai.Topology.Acyclic.Reach.{Connected, here}
use eyot_ai.Topology.Acyclic.Invariant.{Settled, round-Settled, round-met, empty_queue}
use eyot_ai.Topology.Acyclic.Fuel.{
  ends, length-ends, measure, search_done, search_met, search_next, scan-cases, queue-cases,
  search_from_total,
}

-- An answer of the search from a settled state is right.
search_from_correct :
    (fuel : ℕ) (ws : String) (rows : List Passage) (from to : String) (s : Search) (b : Bool)
    → Settled ws rows from to s
    → search_from fuel ws rows from s ≡ some b
    → (b ≡ true → ¬ Connected ws rows to from) × (b ≡ false → Connected ws rows to from)
search_from_correct zero ws rows from to s b k e = unfold search_from in absurd (ground arith)
search_from_correct (suc fuel) ws rows from to s b k e = elim (queue-cases s.queue) [
  | inl q ↦
      let done = search_done fuel ws rows from s q in
      (
        λ t c. let met = empty_queue ws rows from to s q k from c in cc (met, k.unmet),
        λ f. cc (done, e, f),
      )
  | inr (current, queue, q) ↦
      elim (scan-cases (scan from (links ws rows current) (record s { queue = queue }))) [
        | inl r ↦
            let met = search_met fuel ws rows from s current queue q r in
            (λ t. cc (met, e, t), λ f. round-met ws rows from to current queue s q r k)
        | inr (s', r) ↦
            search_from_correct fuel ws rows from to s' b
              (round-Settled ws rows from to current queue s s' q r k)
              (sym (search_next fuel ws rows from s current queue q s' r) ∙ e)
      ]
]

abbrev start : String → Search
start to = record { visited = to ∷ []; queue = to ∷ [] }

start-Settled :
    (ws : String) (rows : List Passage) (from to : String)
    → (from == to) ≡ false
    → Settled ws rows from to (start to)
start-Settled ws rows from to ne = record {
  rooted = ground (arith, eq_refl to);
  sound = λ x h. subst (Connected ws rows to) ((eq_iff to x).0 (ground arith)) here;
  unmet = ground (arith, eq_iff to from, eq_iff from to);
  queued = λ x h. h;
  closed = λ x h. inl h;
}

start-measure : (rows : List Passage) (to : String) → measure (ends rows) (start to) < fuel_for rows
start-measure rows to =
    omega (arith, count-le-length (λ n. not (contains (to ∷ []) n)) (ends rows), length-ends rows)

-- `check_acyclic` gives an answer on every table of passages, and the answer is `True` exactly when no
-- chain of live passages of the workspace connects the two memberships. A membership is connected
-- to itself.
pub check_acyclic_decides :
    (ws from to : String) (rows : List Passage)
    → (b : Bool) × (check_acyclic ws from to rows ≡ some b)
      × ((b ≡ true) ↔ (¬ Connected ws rows to from))
unfolding check_acyclic
check_acyclic_decides ws from to rows = elim (Bool-cases (from == to)) [
  | inl same ↦ (
    false,
    rw same,
    (
      λ f. cc,
      λ apart. absurd (apart (subst (Connected ws rows to) (sym ((eq_iff from to).0 same)) here)),
    ),
  )
  | inr differ ↦
      let (b, e) =
        search_from_total (fuel_for rows) ws rows from (start to) (start-measure rows to) in
      let right =
        search_from_correct (fuel_for rows) ws rows from to (start to) b
          (start-Settled ws rows from to differ) e in
      (
        b,
        rw differ e,
        (right.0, λ apart. elim (Bool-cases b) [ inl t ↦ t | inr f ↦ absurd (apart (right.1 f)) ]),
      )
]
