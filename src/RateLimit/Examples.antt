-- ===== src/RateLimit/Examples.antt =====
-- The limiter at a few requests: tests, and its theorems there.
use eyot_ai.Prelude.{ℕ, String, ◌≡◌, refl, some, List, [], ◌∷◌, arith}
use eyot_ai.RateLimit.{
  Entry, Counters, lookup, store, cleanup_expired, Request, uncounted, passed, rejected, entry_of,
  refresh, retry_after, count_request, check_rate_limit, check_all,
}
use eyot_ai.RateLimit.Quota.{accepted, asked, min, check_all-quota}
use eyot_ai.RateLimit.Bounds.{AreSane, AllInRange, check_all-range}

abbrev get_at : String → ℕ → Request
get_at path now = record { path = path; client = some "ip"; now = now; created = now }

-- the client has two requests left
abbrev nearly_full : Counters
nearly_full = ("ip", record { count = 598; window_start = 1000000 }) ∷ []

abbrev requests : List Request
requests =
    get_at "/api/a" 2000000
    ∷ get_at "/health" 3000000
    ∷ get_at "/api/b" 4000000
    ∷ get_at "/api/c" 5500000
    ∷ []

answers : (check_all requests nearly_full).0 ≡ passed 1 ∷ uncounted ∷ passed 0 ∷ rejected 56 ∷ []
unfolding check_all check_rate_limit cleanup_expired entry_of lookup refresh count_request
    retry_after store
answers = refl

abbrev entry : Entry
entry = record { count = 598; window_start = 1000000 }

found : lookup nearly_full "ip" ≡ some entry
unfolding lookup
found = refl

check_all-quota_example :
    accepted "ip" requests (check_all requests nearly_full).0 ≡ min (asked "ip" requests) 2
check_all-quota_example =
    check_all-quota "ip" requests nearly_full entry found (omega arith) (omega arith)

check_all-range_example :
    AllInRange (check_all requests nearly_full).0
    × AreSane 5500000 (check_all requests nearly_full).1
check_all-range_example = check_all-range 1000000 requests nearly_full (omega arith) (omega arith)
