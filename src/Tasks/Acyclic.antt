-- ===== src/Tasks/Acyclic.antt =====
-- The dependency graph stays free of cycles.
use swarm_mcp.Prelude.{
  ℕ, String, ◌≡◌, sym, subst, ◌⊎◌, inl, inr, false, some, List, [], ◌∷◌, ◌++◌, arith, In, In-append,
  contains, ite, Bool-cases, Option-cases, String_discrete,
}
use swarm_mcp.Dict.{Dict, lookup, insert, erase, lookup-insert, lookup-erase}
use swarm_mcp.Tasks.Task.{Task, remove_first}
use swarm_mcp.Tasks.Search.{deps_of, would_create_cycle}
use swarm_mcp.Tasks.Search.Graph.{Edge, Reach, here, step, IsAcyclic, Reach-trans}
use swarm_mcp.Tasks.Search.Decides.{would_create_cycle-false}
use swarm_mcp.Tasks.Manager.{TaskManager, add_dependency}

pub In-remove_first : (x d : String) (xs : List String) → In x (remove_first d xs) → In x xs
unfolding remove_first
In-remove_first x d [] h = h
In-remove_first x d (y ∷ xs) h = ground (arith, In-remove_first x d xs)

module _ {J : Type 0} where
  pub deps_of-insert :
      (ts : Dict (Task J)) (k j : String) (t : Task J)
      → deps_of (insert k t ts) j ≡ ite (String_discrete k j) t.dependencies (deps_of ts j)
  unfolding deps_of
  deps_of-insert ts k j t = ground (arith, lookup-insert k j t ts)

  pub deps_of-erase :
      (ts : Dict (Task J)) (k j : String)
      → deps_of (erase k ts) j ≡ ite (String_discrete k j) [] (deps_of ts j)
  unfolding deps_of
  deps_of-erase ts k j = ground (arith, lookup-erase k j ts)

  pub deps_of-some :
      (ts : Dict (Task J)) (k : String) (t : Task J)
      → lookup k ts ≡ some t
      → deps_of ts k ≡ t.dependencies
  unfolding deps_of
  deps_of-some ts k t e = ground arith

  module _ (ts us : Dict (Task J)) (fewer : (a b : String) → Edge us a b → Edge ts a b) where
    Reach-mono : {a b : String} → Reach us a b → Reach ts a b
    Reach-mono here = here
    Reach-mono (step {b} {c} p e) = step (Reach-mono p) (fewer b c e)

    -- A graph with fewer edges has no more cycles.
    pub IsAcyclic-mono : IsAcyclic ts → IsAcyclic us
    IsAcyclic-mono h a b e p = h a b (fewer a b e) (Reach-mono p)

  -- One more edge closes no cycle, if its end does not reach its start.
  module _ (ts us : Dict (Task J)) (id dep : String)
      (one_more : (a b : String) → Edge us a b → Edge ts a b ⊎ ((a ≡ id) × (b ≡ dep)))
      (apart : ¬ Reach ts dep id) where
    Reach-split : {a b : String} → Reach us a b → Reach ts a b ⊎ (Reach ts a id × Reach ts dep b)
    Reach-split here = inl here
    Reach-split (step {b} {c} p e) = elim (one_more b c e) [
      | inl old ↦ elim (Reach-split p) [
        | inl q ↦ inl (step q old)
        | inr (q, r) ↦ inr (q, step r old)
      ]
      | inr (eb, ec) ↦ elim (Reach-split p) [
        | inl q ↦ inr (subst (Reach ts _) eb q, subst (Reach ts dep) (sym ec) here)
        | inr (q, r) ↦ inr (q, subst (Reach ts dep) (sym ec) here)
      ]
    ]

    pub IsAcyclic-add : IsAcyclic ts → IsAcyclic us
    IsAcyclic-add h a b e p = elim (Reach-split p) [
      | inl q ↦ elim (one_more a b e) [
        | inl old ↦ h a b old q
        | inr (ea, eb) ↦ apart (subst (λ x. Reach ts x id) eb (subst (Reach ts b) ea q))
      ]
      | inr (q, r) ↦ elim (one_more a b e) [
        | inl old ↦ apart (Reach-trans (step r old) q)
        | inr (ea, eb) ↦ apart (subst (λ x. Reach ts x id) eb q)
      ]
    ]

module _ {J : Type 0} (m : TaskManager J) where
  -- `add_dependency` leaves the table as it was, or both tasks are there, no chain of dependencies
  -- leads back, and the dependency is appended.
  pub add_dependency_cases {ℓ} :
      (P : TaskManager J → Type ℓ) (now : ℕ) (id dep_id : String)
      → P m
      → ((t : Task J)
          → lookup id m.tasks ≡ some t
          → contains t.dependencies dep_id ≡ false
          → ¬ Reach m.tasks dep_id id
          → P (record m {
            tasks =
                insert id
                  (record t { dependencies = t.dependencies ++ dep_id ∷ []; updated_at = now })
                  m.tasks;
          }))
      → P (add_dependency m now id dep_id).state
  unfolding add_dependency
  add_dependency_cases P now id dep_id same added = elim (Option-cases (lookup id m.tasks)) [
    | inl e ↦ ground arith
    | inr (t, e) ↦ elim (Bool-cases (would_create_cycle m.tasks id dep_id)) [
      | inl loop ↦ ground arith
      | inr free ↦ elim (Bool-cases (contains t.dependencies dep_id)) [
        | inl old ↦ ground arith
        | inr new ↦
            let changed = added t e new (would_create_cycle-false m.tasks id dep_id free) in
            ground arith
      ]
    ]
  ]

  -- Where the dependencies have no cycle they have none after `add_dependency`, whatever it answers.
  pub add_dependency-IsAcyclic :
      (now : ℕ) (id dep_id : String)
      → IsAcyclic m.tasks
      → IsAcyclic (add_dependency m now id dep_id).state.tasks
  add_dependency-IsAcyclic now id dep_id h =
      add_dependency_cases (λ n. IsAcyclic n.tasks) now id dep_id h
        λ t found new apart.
          IsAcyclic-add m.tasks _ id dep_id
            (λ a b e. elim (String_discrete id a) [
              | yes hit ↦ ground (
                arith,
                deps_of-insert m.tasks id a
                    (record t { dependencies = t.dependencies ++ dep_id ∷ []; updated_at = now }),
                deps_of-some m.tasks id t found,
                In-append b t.dependencies (dep_id ∷ []),
              )
              | no miss ↦ ground (
                arith,
                deps_of-insert m.tasks id a
                    (record t { dependencies = t.dependencies ++ dep_id ∷ []; updated_at = now }),
              )
            ])
            apart h

pub IsAcyclic-nil : {J : Type 0} → IsAcyclic {J = J} []
unfolding deps_of lookup
IsAcyclic-nil a b e p = e
