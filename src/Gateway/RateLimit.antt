-- ===== src/Gateway/RateLimit.antt =====
-- The sliding-window rate limiter (services/frontend_gateway/gateway_core/rate_limit.py). Readings
-- of the monotonic clock are numbers of microseconds.
pub mod Bound
use aegis_soc.Common.{
  ℕ, ◌+◌, ◌-◌, String, Bool, true, false, Option, none, some, List, [], ◌∷◌, ◌++◌, if◌then◌else◌,
  ltb, leb, length,
}
use aegis_soc.Common.Dict.{Dict, lookup, insert}

-- `RateLimiter`; `hits` is the `defaultdict` of the accepted times, the oldest first
pub record RateLimiter : Type 0 where
  pub max_requests : ℕ
  pub window_seconds : ℕ
  pub hits : Dict (List ℕ)

-- `self._hits[key]`, which is empty for a new key
unfoldable pub window_of : String → Dict (List ℕ) → List ℕ
unfolding lookup
window_of key hits = elim (lookup key hits) [ none ↦ [] | some window ↦ window ]

-- `while window and window[0] < cutoff`, where `cutoff` is `now - window_seconds`
unfoldable pub prune : (window_seconds now : ℕ) → List ℕ → List ℕ
prune window_seconds now [] = []
prune window_seconds now (hit ∷ window) =
    let rest = prune window_seconds now window in
    if ltb (hit + window_seconds) now then rest else hit ∷ window

-- `allow`: whether the call is accepted, and how many more the window has room for
unfoldable pub allow : ℕ → String → RateLimiter → (Bool × ℕ) × RateLimiter
unfolding window_of prune insert
allow now key limiter =
    let window = prune limiter.window_seconds now (window_of key limiter.hits) in
    if leb limiter.max_requests (length window)
    then ((false, 0), record limiter { hits = insert key window limiter.hits })
    else (
      (true, limiter.max_requests - length (window ++ (now ∷ []))),
      record limiter { hits = insert key (window ++ (now ∷ [])) limiter.hits },
    )

-- `retry_after`
unfoldable pub retry_after : ℕ → String → RateLimiter → ℕ
unfolding window_of
retry_after now key limiter = elim (window_of key limiter.hits) [
  | [] ↦ 0
  | hit ∷ _ ↦ limiter.window_seconds - (now - hit)
]
