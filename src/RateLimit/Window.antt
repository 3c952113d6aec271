-- ===== src/RateLimit/Window.antt =====
-- The counters as a dictionary, and one check of the limiter (core/middleware/rate_limit.py).
use text.Mathlib.Text.{starts_with}
use eyot_ai.Prelude.{
  inl, inr, ap, ◌∙◌, eq→path, ℕ, ◌+◌, ◌≤◌, ◌<◌, String, ◌≡◌, refl, Bool, true, false, ◌&&◌, some,
  [], ◌∷◌, ◌==◌, eq_iff, arith, if◌then◌else◌, Bool-cases,
}
use eyot_ai.RateLimit.{
  Entry, Counters, lookup, store, cleanup_expired, Request, client_ip, entry_of, refresh,
  count_request, check_rate_limit,
}

pub lookup-store :
    (c : Counters) (ip k : String) (e : Entry)
    → lookup (store c ip e) k ≡ (if ip == k then some e else lookup c k)
unfolding lookup store
lookup-store [] ip k e = refl
lookup-store ((j, f) ∷ c) ip k e =
    ground (arith, lookup-store c ip k e, eq_iff j ip, eq_iff j k, eq_iff ip k)

-- An entry that is not idle for too long survives the cleanup.
pub lookup-cleanup_expired :
    (now : ℕ) (c : Counters) (k : String) (e : Entry)
    → lookup c k ≡ some e
    → now ≤ e.window_start + 120000000
    → lookup (cleanup_expired now c) k ≡ some e
unfolding lookup cleanup_expired
lookup-cleanup_expired now [] k e h fresh = h
lookup-cleanup_expired now ((j, f) ∷ c) k e h fresh = elim (Bool-cases (j == k)) [
  | inl s ↦ ground arith
  | inr s ↦ ground (arith, lookup-cleanup_expired now c k e (ground arith) fresh)
]

-- the request counts against the client
abbrev pub is_asked : String → Request → Bool
is_asked k r = starts_with r.path "/api/" && client_ip r == k

-- A request of another client, or on another path, leaves the client's entry alone.
pub check_rate_limit-other :
    (k : String) (r : Request) (c : Counters) (e : Entry)
    → lookup c k ≡ some e
    → r.now ≤ e.window_start + 120000000
    → is_asked k r ≡ false
    → lookup (check_rate_limit r c).1 k ≡ some e
unfolding check_rate_limit
check_rate_limit-other k r c e h fresh other = ground (
  arith,
  lookup-cleanup_expired r.now c k e h fresh,
  lookup-store (cleanup_expired r.now c) (client_ip r) k
      (count_request r.now (refresh r.now (entry_of (cleanup_expired r.now c) r))).1,
)

current :
    (c : Counters) (r : Request) (k : String) (e : Entry)
    → client_ip r ≡ k
    → lookup c k ≡ some e
    → entry_of c r ≡ e
unfolding entry_of
current c r k e same h = rw (same, entry_of) (rw h refl)

not_expired : (now : ℕ) (e : Entry) → now < e.window_start + 60000000 → refresh now e ≡ e
unfolding refresh
not_expired now e fresh = ground arith

-- A counted request inside the window of its client's entry.
pub check_rate_limit-own :
    (k : String) (r : Request) (c : Counters) (e : Entry)
    → lookup c k ≡ some e
    → r.now < e.window_start + 60000000
    → is_asked k r ≡ true
    → ((check_rate_limit r c).0 ≡ (count_request r.now e).0)
      × (lookup (check_rate_limit r c).1 k ≡ some (count_request r.now e).1)
unfolding check_rate_limit
check_rate_limit-own k r c e h fresh own =
    let kept = cleanup_expired r.now c in
    let e1 = lookup-cleanup_expired r.now c k e h (omega arith) in
    let same = eq→path (client_ip r) k (ground arith) in
    let e2 : entry_of kept r ≡ e = current kept r k e same e1 in
    let e3 : refresh r.now e ≡ e = not_expired r.now e fresh in
    let counted : (count_request r.now (refresh r.now (entry_of kept r))) ≡ count_request r.now e =
      ap (λ x. count_request r.now (refresh r.now x)) e2 ∙ ap (count_request r.now) e3 in
    ground (
      arith,
      lookup-store kept (client_ip r) k (count_request r.now (refresh r.now (entry_of kept r))).1,
    )
