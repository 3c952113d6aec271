-- ===== src/RateLimit.antt =====
-- eyot-backend/app/core/middleware/rate_limit.py: the counters of `RateLimitMiddleware`. Times are
-- microseconds; the counts are whole numbers.
pub mod Window
pub mod Quota
pub mod Bounds
mod Examples
use text.Mathlib.Text.{starts_with}
use eyot_ai.Prelude.{
  ℕ, ◌+◌, ◌-◌, ◌*◌, ◌/◌, String, Bool, not, Option, none, some, List, [], ◌∷◌, ◌==◌, ltb, leb,
  if◌then◌else◌,
}

-- `WINDOW_SECONDS`, `MAX_REQUESTS_PER_WINDOW`, `CLEANUP_AGE_SECONDS` and `COUNTED_PATH_PREFIX`
abbrev pub window : ℕ
window = 60000000

abbrev pub max_requests_per_window : ℕ
max_requests_per_window = 600

abbrev pub cleanup_age : ℕ
cleanup_age = 120000000

abbrev pub counted_path_prefix : String
counted_path_prefix = "/api/"

pub record Entry : Type 0 where
  pub count : ℕ
  pub window_start : ℕ

-- `_counters`
abbrev pub Counters : Type 0
Counters = List (String × Entry)

unfoldable pub lookup : Counters → String → Option Entry
lookup [] ip = none
lookup ((j, e) ∷ c) ip = if j == ip then some e else lookup c ip

unfoldable pub store : Counters → String → Entry → Counters
store [] ip e = (ip, e) ∷ []
store ((j, f) ∷ c) ip e = let rest = store c ip e in if j == ip then (j, e) ∷ c else (j, f) ∷ rest

-- `_cleanup_expired`
pub cleanup_expired : ℕ → Counters → Counters
cleanup_expired now [] = []
cleanup_expired now ((j, e) ∷ c) =
    let rest = cleanup_expired now c in
    if ltb (e.window_start + cleanup_age) now then rest else (j, e) ∷ rest

-- what the limiter reads of a request: its path, its client's host, and the two readings of the clock,
-- of the check and of the factory of a missing entry
pub record Request : Type 0 where
  pub path : String
  pub client : Option String
  pub now : ℕ
  pub created : ℕ

abbrev pub client_ip : Request → String
client_ip r = elim r.client [ none ↦ "unknown" | some host ↦ host ]

pub data Answer : Type 0 where
  uncounted : Answer
  passed : (remaining : ℕ) → Answer
  rejected : (retry_after : ℕ) → Answer

-- `self._counters[client_ip]` of the default dict
pub entry_of : Counters → Request → Entry
unfolding lookup
entry_of c r = elim (lookup c (client_ip r)) [
  | none ↦ record { count = 0; window_start = r.created }
  | some e ↦ e
]

-- a window that has expired starts again
pub refresh : ℕ → Entry → Entry
refresh now e =
    if leb (e.window_start + window) now then record { count = 0; window_start = now } else e

-- `math.ceil` of the microseconds in seconds
pub retry_after : ℕ → Entry → ℕ
retry_after now e = (e.window_start + window - now + 999999) / 1000000

pub count_request : ℕ → Entry → Answer × Entry
unfolding retry_after
count_request now e =
    if leb max_requests_per_window e.count
    then (rejected (retry_after now e), e)
    else (passed (max_requests_per_window - (e.count + 1)), record e { count = e.count + 1 })

-- `_check_rate_limit`
pub check_rate_limit : Request → Counters → Answer × Counters
unfolding store cleanup_expired entry_of refresh count_request
check_rate_limit r c =
    if not (starts_with r.path counted_path_prefix)
    then (uncounted, c)
    else let kept = cleanup_expired r.now c in
      let (answer, entry) = count_request r.now (refresh r.now (entry_of kept r)) in
      (answer, store kept (client_ip r) entry)

-- a sequence of requests, one check after the other, with the answers
pub check_all : List Request → Counters → List Answer × Counters
unfolding check_rate_limit
check_all [] c = ([], c)
check_all (r ∷ requests) c =
    let (answer, c') = check_rate_limit r c in
    let (answers, c'') = check_all requests c' in (answer ∷ answers, c'')
