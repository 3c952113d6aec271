-- ===== src/Inject/Queue/Requests.antt =====
-- What an enqueue accepts, and that its row can be polled (core/inject_queue.py, `enqueue_inject`).
use eyot_ai.Prelude.{
  ℕ, ◌+◌, ◌≤◌, String, ◌≡◌, ◌↔◌, ◌⊎◌, true, false, none, some, [], ◌∷◌, ◌++◌, arith, if◌then◌else◌,
  ltb, filter, filter-append, ◌&&◌, ◌==◌,
}
use eyot_ai.Json.{obj}
use eyot_ai.Inject.Tldr
use eyot_ai.Inject.Tldr.{
  TldrError, tldr_too_long, tldr_required, is_too_long, has_tldr, compute_prose_length,
}
use eyot_ai.Inject.Rows.{Store, Request, new_row}
use eyot_ai.Inject.Queue.{is_due, check_request, enqueue_inject}

check_request-none :
    (q : Request)
    → (check_request q ≡ none) ↔ (
        (is_too_long q.tldr ≡ false)
        × ((compute_prose_length (obj q.payload) ≤ 240) ⊎ (has_tldr q.tldr ≡ true)))
unfolding check_request Tldr.validate_tldr Tldr.report_prose_length
check_request-none q = (λ e. ground arith, λ h. ground arith)

-- An enqueue returns a row exactly when the tldr has at most 200 characters and the payload's prose at
-- most 240 or the tldr a character that is no space. Otherwise it raises and writes nothing.
pub enqueue_inject-none_iff :
    (now : ℕ) (q : Request) (s : Store)
    → (((enqueue_inject now q s).0 ≡ none) ↔ (
        (is_too_long q.tldr ≡ false)
        × ((compute_prose_length (obj q.payload) ≤ 240) ⊎ (has_tldr q.tldr ≡ true))))
      × ((e : TldrError) → (enqueue_inject now q s).0 ≡ some e → (enqueue_inject now q s).1 ≡ s)
unfolding enqueue_inject
enqueue_inject-none_iff now q s = (
  (
    λ e. (check_request-none q).0 (ground arith),
    λ h. let clear = (check_request-none q).1 h in ground arith,
  ),
  λ e h. ground arith,
)

-- the due rows behind an accepted enqueue
pub enqueue_inject-due :
    (now later : ℕ) (k : String) (q : Request) (s : Store)
    → (enqueue_inject now q s).0 ≡ none
    → filter (is_due later k) (enqueue_inject now q s).1.rows
      ≡ filter (is_due later k) s.rows
        ++ (if (q.instance_id == k) && ltb later (now + 3600000000) then new_row now q ∷ [] else [])
unfolding enqueue_inject
enqueue_inject-due now later k q s e =
    ground (arith, filter-append (is_due later k) s.rows (new_row now q ∷ []))
