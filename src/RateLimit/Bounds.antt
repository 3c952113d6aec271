-- ===== src/RateLimit/Bounds.antt =====
-- The range of the numbers in the limiter's answers (core/middleware/rate_limit.py).
use text.Mathlib.Text.{starts_with}
use eyot_ai.Prelude.{
  ℕ, ◌+◌, ◌≤◌, ◌<◌, String, ◌≡◌, inl, inr, some, List, [], ◌∷◌, ◌==◌, arith, ltb, leb, Bool-cases,
  Option-cases, ◌⊎◌,
}
use eyot_ai.RateLimit.{
  Entry, Counters, lookup, store, cleanup_expired, Request, client_ip, Answer, uncounted, passed,
  rejected, entry_of, refresh, count_request, retry_after, check_rate_limit, check_all,
}

-- an entry of the time `t` or before
abbrev pub IsSane : ℕ → Entry → Type 0
IsSane t e = (e.count ≤ 600) × (e.window_start ≤ t)

abbrev pub AreSane : ℕ → Counters → Type 0
AreSane t [] = Unit
AreSane t ((ip, e) ∷ c) = IsSane t e × AreSane t c

-- the clock does not run backwards
abbrev pub IsClocked : ℕ → List Request → Type 0
IsClocked t [] = Unit
IsClocked t (r ∷ requests) = (t ≤ r.now) × (r.now ≤ r.created) × IsClocked r.created requests

-- the remaining quota is below 600, and the wait is 1 to 60 seconds
abbrev pub IsInRange : Answer → Type 0
IsInRange uncounted = Unit
IsInRange (passed remaining) = remaining < 600
IsInRange (rejected seconds) = (1 ≤ seconds) × (seconds ≤ 60)

abbrev pub AllInRange : List Answer → Type 0
AllInRange [] = Unit
AllInRange (a ∷ answers) = IsInRange a × AllInRange answers

-- the clock's last reading
abbrev pub clock_after : ℕ → List Request → ℕ
clock_after t [] = t
clock_after t (r ∷ requests) = clock_after r.created requests

AreSane-later : (t u : ℕ) (c : Counters) → t ≤ u → AreSane t c → AreSane u c
AreSane-later t u [] le h = tt
AreSane-later t u ((ip, e) ∷ c) le (h, hs) = (omega arith, AreSane-later t u c le hs)

cleanup_expired-AreSane :
    (now t : ℕ) (c : Counters) → AreSane t c → AreSane t (cleanup_expired now c)
unfolding cleanup_expired
cleanup_expired-AreSane now t [] h = tt
cleanup_expired-AreSane now t ((ip, e) ∷ c) (h, hs) =
    elim (Bool-cases (ltb (e.window_start + 120000000) now)) [
      | inl old ↦ rw old (cleanup_expired-AreSane now t c hs)
      | inr kept ↦ rw kept (h, cleanup_expired-AreSane now t c hs)
    ]

store-AreSane :
    (t : ℕ) (c : Counters) (ip : String) (e : Entry)
    → AreSane t c
    → IsSane t e
    → AreSane t (store c ip e)
unfolding store
store-AreSane t [] ip e hs h = (h, tt)
store-AreSane t ((j, f) ∷ c) ip e (g, hs) h = elim (Bool-cases (j == ip)) [
  | inl s ↦ rw s (h, hs)
  | inr s ↦ rw s (g, store-AreSane t c ip e hs h)
]

lookup-IsSane :
    (t : ℕ) (c : Counters) (ip : String) (e : Entry)
    → AreSane t c
    → lookup c ip ≡ some e
    → IsSane t e
unfolding lookup
lookup-IsSane t [] ip e hs h = absurd (ground arith)
lookup-IsSane t ((j, f) ∷ c) ip e (g, hs) h = elim (Bool-cases (j == ip)) [
  | inl s ↦ ground arith
  | inr s ↦ lookup-IsSane t c ip e hs (ground arith)
]

-- the entry that a check counts in: of the past, or new
entry_of-range :
    (t : ℕ) (c : Counters) (r : Request)
    → AreSane t c
    → t ≤ r.now
    → r.now ≤ r.created
    → let e = entry_of c r in
      (e.count ≤ 600) × (e.window_start ≤ r.created) × ((e.window_start ≤ r.now) ⊎ (e.count ≡ 0))
unfolding entry_of
entry_of-range t c r hs le le' = elim (Option-cases (lookup c (client_ip r))) [
  | inl e ↦ ground arith
  | inr (e, h) ↦ let sane = lookup-IsSane t c (client_ip r) e hs h in ground arith
]

refresh-range :
    (now created : ℕ) (e : Entry)
    → now ≤ created
    → (e.count ≤ 600) × (e.window_start ≤ created) × ((e.window_start ≤ now) ⊎ (e.count ≡ 0))
    → let e' = refresh now e in
      (e'.count ≤ 600)
      × (e'.window_start ≤ created)
      × ((e'.window_start ≤ now) ⊎ (e'.count ≡ 0))
      × (now < e'.window_start + 60000000)
unfolding refresh
refresh-range now created e le h = ground arith

count_request-range :
    (now created : ℕ) (e : Entry)
    → e.count ≤ 600
    → e.window_start ≤ created
    → (e.window_start ≤ now) ⊎ (e.count ≡ 0)
    → now < e.window_start + 60000000
    → let (a, e') = count_request now e in IsInRange a × IsSane created e'
unfolding count_request retry_after
count_request-range now created e le before past inside = elim (Bool-cases (leb 600 e.count)) [
  | inl full ↦ rw full ((ground arith, ground arith), (omega arith, omega arith))
  | inr free ↦ rw free (ground arith, (ground arith, omega arith))
]

check_rate_limit-range :
    (t : ℕ) (r : Request) (c : Counters)
    → AreSane t c
    → t ≤ r.now
    → r.now ≤ r.created
    → let (a, c') = check_rate_limit r c in IsInRange a × AreSane r.created c'
unfolding check_rate_limit
check_rate_limit-range t r c hs le le' = elim (Bool-cases (starts_with r.path "/api/")) [
  | inr other ↦ rw other (tt, AreSane-later t r.created c (omega arith) hs)
  | inl counted ↦
      let kept = cleanup_expired r.now c in
      let sane =
        AreSane-later t r.created kept (omega arith) (cleanup_expired-AreSane r.now t c hs) in
      let of_entry = entry_of-range t kept r (cleanup_expired-AreSane r.now t c hs) le le' in
      let (a, b, p, i) = refresh-range r.now r.created (entry_of kept r) le' of_entry in
      let (range, e) =
        count_request-range r.now r.created (refresh r.now (entry_of kept r)) a b p i in
      rw counted (range, store-AreSane r.created kept (client_ip r) _ sane e)
]

-- Where no entry is of the future and none counts more than 600, then over any requests whose clock does
-- not run backwards, every answer that lets a request through leaves fewer than 600, every answer that
-- rejects one asks for a wait of 1 to 60 seconds, and the counters keep the condition
-- up to the last reading of the clock.
pub check_all-range :
    (t : ℕ) (requests : List Request) (c : Counters)
    → AreSane t c
    → IsClocked t requests
    → AllInRange (check_all requests c).0
      × AreSane (clock_after t requests) (check_all requests c).1
unfolding check_all
check_all-range t [] c hs k = (tt, hs)
check_all-range t (r ∷ requests) c hs k =
    let (range, hs') = check_rate_limit-range t r c hs k.0 k.1 in
    let (rest, later) = check_all-range r.created requests (check_rate_limit r c).1 hs' k.2 in
    ((range, rest), later)
