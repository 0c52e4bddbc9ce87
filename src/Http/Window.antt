-- ===== src/Http/Window.antt =====
-- What the limiter lets through.
use swarm_mcp.Prelude.{
  ℕ, suc, ◌<◌, ◌≤◌, String, ◌≡◌, ◌≢◌, ◌↔◌, refl, ap, subst, sym, ◌∙◌, inl, inr, true, false, List,
  [], ◌∷◌, ◌++◌, length, ltb, leb, not, ◌+◌, if◌then◌else◌, arith, Bool-cases, Option-cases,
}
use swarm_mcp.Text.{◌=ᵇ◌}
use swarm_mcp.Dict.{lookup, lookup-insert, Every, Every-insert, Every-nil}
use swarm_mcp.Http.RateLimiter.{RateLimiter, rate_limiter, bucket, is_old, evict, allow}

-- How many of the times are less than 60,000,000,000 nanoseconds back.
abbrev pub count_recent : ℕ → List ℕ → ℕ
count_recent now [] = 0
count_recent now (t ∷ ts) =
    let rest = count_recent now ts in if ltb now (t + 60000000000) then suc rest else rest

is_old-recent : (now t : ℕ) → is_old now t ≡ not (ltb now (t + 60000000000))
unfolding is_old
is_old-recent now t = ground arith

abbrev pub NotBefore : ℕ → List ℕ → Type 0
NotBefore t [] = Unit
NotBefore t (x ∷ xs) = (t ≤ x) × NotBefore t xs

-- The oldest first.
abbrev pub IsOrdered : List ℕ → Type 0
IsOrdered [] = Unit
IsOrdered (t ∷ ts) = NotBefore t ts × IsOrdered ts

all_recent :
    (now t : ℕ) (ts : List ℕ)
    → is_old now t ≡ false
    → NotBefore t ts
    → count_recent now ts ≡ length ts
unfolding is_old
all_recent now t [] young after = refl
all_recent now t (x ∷ xs) young after =
    let rest = all_recent now t xs young after.1 in ground (arith, after.0)

length-evict : (now : ℕ) (ts : List ℕ) → IsOrdered ts → length (evict now ts) ≡ count_recent now ts
unfolding evict
length-evict now [] o = refl
length-evict now (t ∷ ts) o = elim (Bool-cases (is_old now t)) [
  | inl old ↦ ground (arith, is_old-recent now t, length-evict now ts o.1)
  | inr young ↦ let rest = all_recent now t ts young o.0 in ground (arith, is_old-recent now t)
]

evict-shorter : (now : ℕ) (ts : List ℕ) → length (evict now ts) ≤ length ts
unfolding evict
evict-shorter now [] = omega arith
evict-shorter now (t ∷ ts) = ground (arith, evict-shorter now ts)

-- With a limit and a bucket that is in order, a request is let through exactly if fewer requests of
-- its key than the limit stand in the bucket with times less than sixty seconds
-- (60,000,000,000 nanoseconds) back.
pub allow_iff :
    (r : RateLimiter) (now : ℕ) (key : String)
    → 0 < r.max_rpm
    → IsOrdered (bucket r key)
    → ((allow r now key).0 ≡ true) ↔ (count_recent now (bucket r key) < r.max_rpm)
unfolding allow
allow_iff r now key limited o =
    let same = length-evict now (bucket r key) o in (λ h. ground arith, λ h. ground arith)

-- No other key's bucket is touched.
pub bucket-allow :
    (r : RateLimiter) (now : ℕ) (key other : String)
    → key ≢ other
    → bucket (allow r now key).1 other ≡ bucket r other
unfolding allow bucket
bucket-allow r now key other apart = elim (Bool-cases (r.max_rpm =ᵇ 0)) [
  | inl free ↦ ground arith
  | inr limited ↦ elim (Bool-cases (leb r.max_rpm (length (evict now (bucket r key))))) [
    | inl full ↦ ground (arith, lookup-insert key other (evict now (bucket r key)) r.buckets)
    | inr room ↦
        ground (arith, lookup-insert key other (evict now (bucket r key) ++ now ∷ []) r.buckets)
  ]
]

abbrev pub NotAfter : ℕ → List ℕ → Type 0
NotAfter n [] = Unit
NotAfter n (x ∷ xs) = (x ≤ n) × NotAfter n xs

NotAfter-later : (m n : ℕ) (ts : List ℕ) → m ≤ n → NotAfter m ts → NotAfter n ts
NotAfter-later m n [] le h = tt
NotAfter-later m n (x ∷ xs) le h = (omega (arith, h.0), NotAfter-later m n xs le h.1)

evict-NotAfter : (now n : ℕ) (ts : List ℕ) → NotAfter n ts → NotAfter n (evict now ts)
unfolding evict
evict-NotAfter now n [] h = tt
evict-NotAfter now n (t ∷ ts) h = elim (Bool-cases (is_old now t)) [
  | inl old ↦ rw (old) (evict-NotAfter now n ts h.1)
  | inr young ↦ rw (young) h
]

evict-IsOrdered : (now : ℕ) (ts : List ℕ) → IsOrdered ts → IsOrdered (evict now ts)
unfolding evict
evict-IsOrdered now [] h = tt
evict-IsOrdered now (t ∷ ts) h = elim (Bool-cases (is_old now t)) [
  | inl old ↦ rw (old) (evict-IsOrdered now ts h.1)
  | inr young ↦ rw (young) h
]

NotBefore-snoc : (t n : ℕ) (ts : List ℕ) → t ≤ n → NotBefore t ts → NotBefore t (ts ++ n ∷ [])
NotBefore-snoc t n [] le h = (le, tt)
NotBefore-snoc t n (x ∷ xs) le h = (h.0, NotBefore-snoc t n xs le h.1)

IsOrdered-snoc : (n : ℕ) (ts : List ℕ) → NotAfter n ts → IsOrdered ts → IsOrdered (ts ++ n ∷ [])
IsOrdered-snoc n [] a o = (tt, tt)
IsOrdered-snoc n (t ∷ ts) a o = (NotBefore-snoc t n ts a.0 o.0, IsOrdered-snoc n ts a.1 o.1)

NotAfter-snoc : (n : ℕ) (ts : List ℕ) → NotAfter n ts → NotAfter n (ts ++ n ∷ [])
NotAfter-snoc n [] a = (omega arith, tt)
NotAfter-snoc n (t ∷ ts) a = (a.0, NotAfter-snoc n ts a.1)

length-snoc : (n : ℕ) (ts : List ℕ) → length (ts ++ n ∷ []) ≡ suc (length ts)
length-snoc n [] = refl
length-snoc n (t ∷ ts) = ap suc (length-snoc n ts)

-- A bucket at the time `now`: in order, with nothing in the future, and within the limit.
pub record IsBucket (max now : ℕ) (ts : List ℕ) : Type 0 where
  pub ordered : IsOrdered ts
  pub past : NotAfter now ts
  pub bounded : length ts ≤ max

later : (max m n : ℕ) (ts : List ℕ) → m ≤ n → IsBucket max m ts → IsBucket max n ts
later max m n ts le b = record {
  ordered = b.ordered;
  past = NotAfter-later m n ts le b.past;
  bounded = b.bounded;
}

evicted : (max now : ℕ) (ts : List ℕ) → IsBucket max now ts → IsBucket max now (evict now ts)
evicted max now ts b = record {
  ordered = evict-IsOrdered now ts b.ordered;
  past = evict-NotAfter now now ts b.past;
  bounded = omega (arith, evict-shorter now ts, b.bounded);
}

pushed :
    (max now : ℕ) (ts : List ℕ)
    → IsBucket max now ts
    → length ts < max
    → IsBucket max now (ts ++ now ∷ [])
pushed max now ts b room = record {
  ordered = IsOrdered-snoc now ts b.past b.ordered;
  past = NotAfter-snoc now ts b.past;
  bounded = omega (arith, length-snoc now ts, room);
}

bucket-IsBucket :
    (max now : ℕ) (r : RateLimiter) (key : String)
    → Every (λ k. IsBucket max now) r.buckets
    → IsBucket max now (bucket r key)
unfolding bucket
bucket-IsBucket max now r key all = elim (Option-cases (lookup key r.buckets)) [
  | inl g ↦ rw (g, bucket) (record { ordered = tt; past = tt; bounded = omega arith })
  | inr (ts, g) ↦ rw (g, bucket) (all key ts g)
]

-- What `allow` keeps, where time does not go back.
allow-Every :
    (r : RateLimiter) (before now : ℕ) (key : String)
    → before ≤ now
    → Every (λ k. IsBucket r.max_rpm before) r.buckets
    → Every (λ k. IsBucket r.max_rpm now) (allow r now key).1.buckets
unfolding allow
allow-Every r before now key le all =
    let old : Every (λ k. IsBucket r.max_rpm now) r.buckets =
      λ k ts e. later r.max_rpm before now ts le (all k ts e) in
    let here = evicted r.max_rpm now (bucket r key) (bucket-IsBucket r.max_rpm now r key old) in
    elim (Bool-cases (r.max_rpm =ᵇ 0)) [
      | inl free ↦ rw (free) old
      | inr limited ↦ elim (Bool-cases (leb r.max_rpm (length (evict now (bucket r key))))) [
        | inl full ↦
            rw (limited, full)
              (Every-insert (λ k. IsBucket r.max_rpm now) key (evict now (bucket r key)) r.buckets
                here old)
        | inr room ↦
            rw (limited, room)
              (Every-insert (λ k. IsBucket r.max_rpm now) key (evict now (bucket r key) ++ now ∷ [])
                r.buckets (pushed r.max_rpm now (evict now (bucket r key)) here (ground arith)) old)
      ]
    ]

max_rpm-allow : (r : RateLimiter) (now : ℕ) (key : String) → (allow r now key).1.max_rpm ≡ r.max_rpm
unfolding allow
max_rpm-allow r now key = ground arith

-- Requests, each with its time and its key, at times that do not go back.
abbrev pub IsTimed : ℕ → List (ℕ × String) → Type 0
IsTimed before [] = Unit
IsTimed before ((now, key) ∷ cs) = (before ≤ now) × IsTimed now cs

abbrev pub run : RateLimiter → List (ℕ × String) → RateLimiter
run r [] = r
run r ((now, key) ∷ cs) = run (allow r now key).1 cs

run-kept :
    (max before : ℕ) (r : RateLimiter) (cs : List (ℕ × String)) (key : String)
    → r.max_rpm ≡ max
    → Every (λ k. IsBucket max before) r.buckets
    → IsTimed before cs
    → IsOrdered (bucket (run r cs) key) × (length (bucket (run r cs) key) ≤ max)
run-kept max before r [] key e all timed =
    let b = bucket-IsBucket max before r key all in (b.ordered, b.bounded)
run-kept max before r ((now, k) ∷ cs) key e all timed =
    run-kept max now (allow r now k).1 cs key (max_rpm-allow r now k ∙ e)
      (subst (λ m. Every (λ _. IsBucket m now) (allow r now k).1.buckets) e
        (allow-Every r before now k timed.0
          (subst (λ m. Every (λ _. IsBucket m before) r.buckets) (sym e) all)))
      timed.1

-- After any requests at times that do not go back, on a new limiter, no key has more times in its
-- bucket than the limit, and they are in order.
pub run-rate_limiter :
    (max : ℕ) (cs : List (ℕ × String)) (key : String)
    → IsTimed 0 cs
    → IsOrdered (bucket (run (rate_limiter max) cs) key)
      × (length (bucket (run (rate_limiter max) cs) key) ≤ max)
unfolding rate_limiter
run-rate_limiter max cs key timed =
    run-kept max 0 (rate_limiter max) cs key refl (Every-nil _) timed
