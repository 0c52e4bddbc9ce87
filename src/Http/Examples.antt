-- ===== src/Http/Examples.antt =====
-- The theorems on the rate limiter at concrete inputs, and tests of the definitions.
use swarm_mcp.Prelude.{
  ℕ, ◌<◌, String, ◌≡◌, ◌↔◌, refl, true, false, List, [], ◌∷◌, String_discrete, arith,
}
use swarm_mcp.Dict.{lookup}
use swarm_mcp.Http.RateLimiter.{RateLimiter, bucket, allow, evict, is_old}
use swarm_mcp.Http.Window.{count_recent, allow_iff}

-- Two requests a minute.
abbrev limiter : RateLimiter
limiter = record { max_rpm = 2; buckets = ("ann", 5 ∷ 7 ∷ []) ∷ [] }

refused : (allow limiter 9 "ann").0 ≡ false
unfolding allow bucket evict is_old lookup String_discrete
refused = refl

a_minute_later : (allow limiter 60000000005 "ann").0 ≡ true
unfolding allow bucket evict is_old lookup String_discrete
a_minute_later = refl

allow_iff_example :
    ((allow limiter 9 "ann").0 ≡ true) ↔ (count_recent 9 (bucket limiter "ann") < limiter.max_rpm)
unfolding bucket lookup String_discrete
allow_iff_example = allow_iff limiter 9 "ann" (omega arith) ((omega arith, tt), (tt, tt))

abbrev requests : List (ℕ × String)
requests = (5, "ann") ∷ (7, "ann") ∷ (7, "bob") ∷ (9, "ann") ∷ []
