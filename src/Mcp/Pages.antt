-- ===== src/Mcp/Pages.antt =====
-- What a page of a list holds.
use swarm_mcp.Prelude.{
  ℕ, suc, ◌+◌, ◌-◌, ◌≤◌, ◌<◌, ◌≡◌, Bool, Bool-cases, inl, inr, true, false, List, [], ◌∷◌, map, leb,
  length, take, drop, min, arith, take-nil, drop-nil, take-zero, take-suc, drop-zero, drop-suc,
}
use swarm_mcp.Dict.{Dict, select}
use swarm_mcp.Mcp.Json.{ℤ, pos, negsuc}
use swarm_mcp.Mcp.Listing.{before, page, page_limit}

-- Where the cursor stands.
abbrev pub start : ℤ → ℕ
start (pos c) = c
start (negsuc c) = 0

pub page_limit-bounds : (z : ℤ) → (1 ≤ page_limit z) × (page_limit z ≤ 1000)
unfolding page_limit
page_limit-bounds (pos n) = ground arith
page_limit-bounds (negsuc n) = ground arith

before-start : (i : ℕ) (z : ℤ) → before i z ≡ true → i < start z
before-start i (pos c) h = ground arith
before-start i (negsuc c) h = cc

start-before : (i : ℕ) (z : ℤ) → before i z ≡ false → start z ≤ i
start-before i (pos c) h = ground arith
start-before i (negsuc c) h = omega arith

module _ {V J : Type 0} (shown : V → Bool) (view : V → J) where
  -- All that may be listed, in order.
  abbrev pub entries : Dict V → List J
  entries m = map view (select shown m)

  page-entries :
      (z : ℤ) (limit i n : ℕ) (m : Dict V)
      → (page shown view z limit i n m).0 ≡ take (limit - n) (drop (start z - i) (entries m))
  unfolding page select
  page-entries z limit i n [] =
      ground (arith, take-nil {A = J} (limit - n), drop-nil {A = J} (start z - i))
  page-entries z limit i n ((k, v) ∷ m) = elim (Bool-cases (shown v)) [
    | inr hidden ↦ ground (arith, page-entries z limit i n m)
    | inl seen ↦ elim (Bool-cases (before i z)) [
      | inl skip ↦ ground (
        arith,
        page-entries z limit (suc i) n m,
        drop-suc (start z - i) (start z - suc i) (view v) (entries m)
            (omega (arith, before-start i z skip)),
      )
      | inr here ↦ elim (Bool-cases (leb limit n)) [
        | inl full ↦
            ground (
              arith,
              take-zero (limit - n) (drop (start z - i) (view v ∷ entries m)) (ground arith),
            )
        | inr more ↦ ground (
          arith,
          page-entries z limit (suc i) (suc n) m,
          drop-zero (start z - i) (view v ∷ entries m) (omega (arith, start-before i z here)),
          drop-zero (start z - suc i) (entries m) (omega (arith, start-before i z here)),
          take-suc (limit - n) (limit - suc n) (view v) (entries m) (ground arith),
        )
      ]
    ]
  ]

  page-end :
      (z : ℤ) (limit i n : ℕ) (m : Dict V)
      → (page shown view z limit i n m).1
        ≡ i + min (length (entries m)) ((start z - i) + (limit - n))
  unfolding page select
  page-end z limit i n [] = ground arith
  page-end z limit i n ((k, v) ∷ m) = elim (Bool-cases (shown v)) [
    | inr hidden ↦ ground (arith, page-end z limit i n m)
    | inl seen ↦ elim (Bool-cases (before i z)) [
      | inl skip ↦ ground (arith, page-end z limit (suc i) n m, before-start i z skip)
      | inr here ↦ elim (Bool-cases (leb limit n)) [
        | inl full ↦ ground (arith, start-before i z here)
        | inr more ↦ ground (arith, page-end z limit (suc i) (suc n) m, start-before i z here)
      ]
    ]
  ]

  -- From the start: a stretch of the entries, and the number of entries up to its end.
  pub page_lem :
      (z : ℤ) (limit : ℕ) (m : Dict V)
      → ((page shown view z limit 0 0 m).0 ≡ take limit (drop (start z) (entries m)))
        × ((page shown view z limit 0 0 m).1 ≡ min (length (entries m)) (start z + limit))
  page_lem z limit m =
      (ground (arith, page-entries z limit 0 0 m), ground (arith, page-end z limit 0 0 m))
