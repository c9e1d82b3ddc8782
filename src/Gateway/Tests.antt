-- ===== src/Gateway/Tests.antt =====
-- The rate limiter at concrete inputs: two calls in a second, and a limit of one.
use aegis_soc.Common.{ℕ, ◌≤◌, String, List, [], ◌∷◌, arith}
use aegis_soc.Gateway.RateLimit.Bound.{within, times_of, serve, fresh, serve-bounded}

abbrev calls : List (String × ℕ)
calls = ("sam", 10) ∷ ("sam", 400) ∷ ("ana", 400) ∷ ("sam", 1200) ∷ []

serve-bounded_example : within 1000 10 (times_of "sam" (serve calls (fresh 1 1000, [])).1) ≤ 1
serve-bounded_example =
    serve-bounded 1 1000 calls "sam" 10
      (omega arith, (omega arith, (omega arith, (omega arith, tt))))
