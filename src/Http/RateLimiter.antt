-- ===== src/Http/RateLimiter.antt =====
-- `RateLimiter`. The steady clock's reading is an argument, in nanoseconds.
use swarm_mcp.Prelude.{
  ℕ, ◌-◌, ◌/◌, String, Bool, true, false, none, some, List, [], ◌∷◌, ◌++◌, length, leb,
  if◌then◌else◌,
}
use swarm_mcp.Text.{◌=ᵇ◌}
use swarm_mcp.Dict.{Dict, lookup, insert}

-- A limit below zero does what zero does: there is no limit.
pub record RateLimiter : Type 0 where
  pub max_rpm : ℕ
  pub buckets : Dict (List ℕ)

unfoldable pub rate_limiter : ℕ → RateLimiter
rate_limiter max = record { max_rpm = max; buckets = [] }

-- buckets_[key]
unfoldable pub bucket : RateLimiter → String → List ℕ
bucket r key = elim (lookup key r.buckets) [ none ↦ [] | some ts ↦ ts ]

-- `now` is never before a time in the bucket.
unfoldable pub is_old : (now t : ℕ) → Bool
is_old now t = leb 60 ((now - t) / 1000000000)

unfoldable pub evict : (now : ℕ) → List ℕ → List ℕ
evict now [] = []
evict now (t ∷ ts) = let rest = evict now ts in if is_old now t then rest else t ∷ ts

unfoldable pub allow : RateLimiter → (now : ℕ) → (key : String) → Bool × RateLimiter
unfolding evict bucket
allow r now key =
    if r.max_rpm =ᵇ 0
    then (true, r)
    else let ts = evict now (bucket r key) in
      if leb r.max_rpm (length ts)
      then (false, record r { buckets = insert key ts r.buckets })
      else (true, record r { buckets = insert key (ts ++ now ∷ []) r.buckets })
