-- ===== src/Tasks/Search/Decides.antt =====
-- The search always ends, and its answer says whether a path exists.
use swarm_mcp.Prelude.{
  ℕ, zero, suc, ◌+◌, ◌≤◌, String, ◌≡◌, refl, sym, subst, ◌≢◌, ◌⊎◌, inl, inr, ◌↔◌, Bool, true, false,
  some, List, [], ◌∷◌, arith, length, In, contains, In-of_contains, ◌==◌, if◌then◌else◌, Bool-cases,
  String_discrete,
}
use mathlib.Core.Logic.{∥∥₁_elim}
use mathlib.Core.HLevel.{⊥_prop}
use swarm_mcp.Dict.{Dict, lookup}
use swarm_mcp.Tasks.Task.{Task}
use swarm_mcp.Tasks.Search.{deps_of, push_all, search, total_deps, would_create_cycle}
use swarm_mcp.Tasks.Search.Graph.{Edge, Reach, here, step}

length-push_all : (ds s : List String) → length (push_all ds s) ≡ length ds + length s
unfolding push_all
length-push_all [] s = omega arith
length-push_all (d ∷ ds) s = omega (arith, length-push_all ds (d ∷ s))

In-push_all : (x : String) (ds s : List String) → In x (push_all ds s) ↔ (In x ds ⊎ In x s)
unfolding push_all
In-push_all x [] s = (inr, λ h. ground arith)
In-push_all x (d ∷ ds) s = ground (arith, In-push_all x ds (d ∷ s))

module _ {J : Type 0} where
  -- The dependencies of the tasks that are not visited yet.
  weight : List String → Dict (Task J) → ℕ
  weight visited [] = 0
  weight visited ((k, t) ∷ ts) =
      (if contains visited k then 0 else length t.dependencies) + weight visited ts

  weight-nil : (ts : Dict (Task J)) → weight [] ts ≡ total_deps ts
  unfolding weight total_deps contains
  weight-nil [] = refl
  weight-nil ((k, t) ∷ ts) = omega (arith, weight-nil ts)

  weight-cons-le :
      (c : String) (visited : List String) (ts : Dict (Task J))
      → weight (c ∷ visited) ts ≤ weight visited ts
  unfolding weight contains
  weight-cons-le c visited [] = omega arith
  weight-cons-le c visited ((k, t) ∷ ts) = ground (arith, weight-cons-le c visited ts)

  weight-visit :
      (c : String) (visited : List String) (ts : Dict (Task J))
      → contains visited c ≡ false
      → weight (c ∷ visited) ts + length (deps_of ts c) ≤ weight visited ts
  unfolding weight contains deps_of lookup
  weight-visit c visited [] h = omega arith
  weight-visit c visited ((k, t) ∷ ts) h =
      ground (arith, weight-visit c visited ts h, weight-cons-le c visited ts)

  search_returns :
      (fuel : ℕ) (ts : Dict (Task J)) (id : String) (visited stack : List String)
      → length stack + weight visited ts ≤ fuel
      → (b : Bool) × (search fuel ts id visited stack ≡ some b)
  unfolding search
  search_returns zero ts id visited [] h = (false, refl)
  search_returns zero ts id visited (c ∷ stack) h = absurd (omega arith)
  search_returns (suc fuel) ts id visited [] h = (false, refl)
  search_returns (suc fuel) ts id visited (c ∷ stack) h = elim (Bool-cases (c == id)) [
    | inl hit ↦ (true, rw hit)
    | inr miss ↦ elim (Bool-cases (contains visited c)) [
      | inl seen ↦ rw (miss, seen) (search_returns fuel ts id visited stack (omega arith))
      | inr new ↦
          rw (miss, new)
            (search_returns fuel ts id (c ∷ visited) (push_all (deps_of ts c) stack)
              (omega (arith, length-push_all (deps_of ts c) stack, weight-visit c visited ts new)))
    ]
  ]

module _ {J : Type 0} (ts : Dict (Task J)) (root id : String) where
  -- A positive answer comes from a path, when all that is on the stack is on a path.
  search_sound :
      (fuel : ℕ) (visited stack : List String)
      → ((x : String) → In x stack → Reach ts root x)
      → search fuel ts id visited stack ≡ some true
      → Reach ts root id
  unfolding search
  search_sound zero visited [] reached e = cc
  search_sound zero visited (c ∷ stack) reached e = cc
  search_sound (suc fuel) visited [] reached e = cc
  search_sound (suc fuel) visited (c ∷ stack) reached e = elim (String_discrete c id) [
    | yes hit ↦ subst (Reach ts root) hit (reached c (inl refl))
    | no miss ↦ elim (Bool-cases (contains visited c)) [
      | inl seen ↦ search_sound fuel visited stack (λ x h. reached x (inr h)) (ground arith)
      | inr new ↦
          search_sound fuel (c ∷ visited) (push_all (deps_of ts c) stack)
            (λ x h. elim ((In-push_all x (deps_of ts c) stack).0 h) [
              | inl edge ↦ step (reached c (inl refl)) edge
              | inr old ↦ reached x (inr old)
            ])
            (ground arith)
    ]
  ]

  -- What the loop keeps while it has not met `id`.
  record Inv (visited stack : List String) : Type 0 where
    rooted : In root visited ⊎ In root stack
    avoids : (x : String) → In x visited → x ≢ id
    closed : (x y : String) → In x visited → Edge ts x y → In y visited ⊎ In y stack

  Inv-skip :
      (visited stack : List String) (c : String)
      → contains visited c ≡ true
      → Inv visited (c ∷ stack)
      → Inv visited stack
  Inv-skip visited stack c seen v = record {
    rooted = ground (arith, v.rooted, In-of_contains visited c seen);
    avoids = v.avoids;
    closed = λ x y h e. ground (arith, v.closed x y h e, In-of_contains visited c seen);
  }

  Inv-expand :
      (visited stack : List String) (c : String)
      → c ≢ id
      → Inv visited (c ∷ stack)
      → Inv (c ∷ visited) (push_all (deps_of ts c) stack)
  Inv-expand visited stack c miss v = record {
    rooted = ground (arith, v.rooted, In-push_all root (deps_of ts c) stack);
    avoids = λ x h. ground (arith, v.avoids x);
    closed = λ x y h e. ground (arith, v.closed x y, In-push_all y (deps_of ts c) stack);
  }

  -- A finished search has visited all that the root reaches.
  Inv-complete :
      (visited : List String) → Inv visited [] → {x : String} → Reach ts root x → In x visited
  Inv-complete visited v here = ground (arith, v.rooted)
  Inv-complete visited v (step {b} {c} p e) =
      ground (arith, v.closed b c (Inv-complete visited v p) e)

  search_complete :
      (fuel : ℕ) (visited stack : List String)
      → Inv visited stack
      → search fuel ts id visited stack ≡ some false
      → ¬ Reach ts root id
  unfolding search
  search_complete zero visited [] v e p = v.avoids id (Inv-complete visited v p) refl
  search_complete zero visited (c ∷ stack) v e p = cc
  search_complete (suc fuel) visited [] v e p = v.avoids id (Inv-complete visited v p) refl
  search_complete (suc fuel) visited (c ∷ stack) v e p = elim (String_discrete c id) [
    | yes hit ↦ ground arith
    | no miss ↦ elim (Bool-cases (contains visited c)) [
      | inl seen ↦
          search_complete fuel visited stack (Inv-skip visited stack c seen v) (ground arith) p
      | inr new ↦
          search_complete fuel (c ∷ visited) (push_all (deps_of ts c) stack)
            (Inv-expand visited stack c miss v) (ground arith) p
    ]
  ]

  Inv-start : Inv [] (root ∷ [])
  Inv-start = record {
    rooted = inr (inl refl);
    avoids = λ x h. absurd h;
    closed = λ x y h e. absurd h;
  }

module _ {J : Type 0} (ts : Dict (Task J)) (id dep_id : String) where
  -- With one round more than there are dependencies in the table, which is what
  -- `would_create_cycle` grants it, the search always comes to an answer.
  pub search_total : (b : Bool) × (search (suc (total_deps ts)) ts id [] (dep_id ∷ []) ≡ some b)
  search_total =
      search_returns (suc (total_deps ts)) ts id [] (dep_id ∷ []) (omega (arith, weight-nil ts))

  pub would_create_cycle-true : would_create_cycle ts id dep_id ≡ true → Reach ts dep_id id
  unfolding would_create_cycle
  would_create_cycle-true h =
      search_sound ts dep_id id (suc (total_deps ts)) [] (dep_id ∷ [])
        (λ x m. elim m [ inl e ↦ subst (Reach ts dep_id) (sym e) here | inr n ↦ absurd n ])
        (ground (arith, search_total))

  pub would_create_cycle-false : would_create_cycle ts id dep_id ≡ false → ¬ Reach ts dep_id id
  unfolding would_create_cycle
  would_create_cycle-false h =
      search_complete ts dep_id id (suc (total_deps ts)) [] (dep_id ∷ []) (Inv-start ts dep_id id)
        (ground (arith, search_total))

  -- `would_create_cycle` answers true exactly when a chain of dependencies, of any length, leads
  -- from `dep_id` to `id`.
  pub would_create_cycle_iff : (would_create_cycle ts id dep_id ≡ true) ↔ ∥ Reach ts dep_id id ∥₁
  would_create_cycle_iff = (
    λ h. ∣ would_create_cycle-true h ∣₁,
    λ p. elim (Bool-cases (would_create_cycle ts id dep_id)) [
      | inl e ↦ e
      | inr e ↦ absurd (∥∥₁_elim p ⊥_prop (would_create_cycle-false e))
    ],
  )
