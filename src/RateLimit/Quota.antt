-- ===== src/RateLimit/Quota.antt =====
-- How many requests of a client the limiter lets through, and the numbers that it answers
-- (core/middleware/rate_limit.py).
use eyot_ai.Prelude.{
  ℕ, suc, ◌+◌, ◌-◌, ◌≤◌, ◌<◌, String, ◌≡◌, inl, inr, Bool, true, false, ◌&&◌, some, List, [], ◌∷◌,
  arith, ltb, leb, if◌then◌else◌, Bool-cases, All, count,
}
use eyot_ai.RateLimit.{
  Entry, Counters, lookup, Request, Answer, passed, count_request, check_rate_limit, check_all,
}
use eyot_ai.RateLimit.Window.{is_asked, check_rate_limit-other, check_rate_limit-own}

abbrev pub is_passed : Answer → Bool
is_passed (passed n) = true
is_passed _ = false

-- the client's requests that were let through
abbrev pub accepted : String → List Request → List Answer → ℕ
accepted k (r ∷ requests) (a ∷ answers) =
    let rest = accepted k requests answers in if is_asked k r && is_passed a then suc rest else rest
accepted k _ _ = 0

-- the client's requests
abbrev pub asked : String → List Request → ℕ
asked k requests = count (is_asked k) requests

abbrev pub min : ℕ → ℕ → ℕ
min a b = if leb a b then a else b

counted_entry :
    (now : ℕ) (e : Entry)
    → e.count ≤ 600
    → let (a, e') = count_request now e in
      (e'.window_start ≡ e.window_start)
      × (e'.count ≤ 600)
      × (e'.count ≡ (if is_passed a then e.count + 1 else e.count))
      × (is_passed a ≡ ltb e.count 600)
unfolding count_request
counted_entry now e h = ground arith

All-start :
    (a b : ℕ) (requests : List Request)
    → a ≡ b
    → All (λ r. r.now < a + 60000000) requests
    → All (λ r. r.now < b + 60000000) requests
All-start a b [] e h = tt
All-start a b (r ∷ requests) e h = (omega arith, All-start a b requests e h.1)

-- Where a client has an entry with at most 600 counted requests, then of any requests, of that client
-- and of others, that all come before the entry's window ends, exactly as many of the client's pass as
-- it asks, or as the 600 leave it where it asks for more.
pub check_all-quota :
    (k : String) (requests : List Request) (c : Counters) (e : Entry)
    → lookup c k ≡ some e
    → e.count ≤ 600
    → All (λ r. r.now < e.window_start + 60000000) requests
    → accepted k requests (check_all requests c).0 ≡ min (asked k requests) (600 - e.count)
unfolding check_all
check_all-quota k [] c e h le inside = ground arith
check_all-quota k (r ∷ requests) c e h le inside = elim (Bool-cases (is_asked k r)) [
  | inl own ↦
      let (a, l) = check_rate_limit-own k r c e h inside.0 own in
      let e' = (count_request r.now e).1 in
      let (start, le', n, p) = counted_entry r.now e le in
      let rest =
        check_all-quota k requests (check_rate_limit r c).1 e' l le'
          (All-start e.window_start e'.window_start requests (ground arith) inside.1) in
      ground arith
  | inr other ↦
      let l = check_rate_limit-other k r c e h (omega arith) other in
      let rest = check_all-quota k requests (check_rate_limit r c).1 e l le inside.1 in ground arith
]
