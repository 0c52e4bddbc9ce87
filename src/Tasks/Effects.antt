-- ===== src/Tasks/Effects.antt =====
-- What the calls answer, what they change, and what the callback is told.
use swarm_mcp.Prelude.{
  ℕ, String, ◌≡◌, ◌≢◌, refl, inl, inr, true, false, some, List, [], ◌∷◌, ◌++◌, arith, contains,
  Distinct, In-of_contains, Bool-cases, Option-cases,
}
use swarm_mcp.Dict.{lookup, lookup-insert}
use swarm_mcp.Tasks.Task.{Task, remove_first}
use swarm_mcp.Tasks.Search.{would_create_cycle}
use swarm_mcp.Tasks.Search.Graph.{Reach}
use swarm_mcp.Tasks.Search.Decides.{would_create_cycle-true}
use swarm_mcp.Tasks.Manager.{TaskManager, add_dependency, remove_dependency, has_dependency}
use swarm_mcp.Tasks.History.{Inv}

contains-snoc : (xs : List String) (x : String) → contains (xs ++ x ∷ []) x ≡ true
unfolding contains
contains-snoc [] x = ground arith
contains-snoc (y ∷ xs) x = ground (arith, contains-snoc xs x)

contains-remove_first :
    (xs : List String) (x : String) → Distinct xs → contains (remove_first x xs) x ≡ false
unfolding contains remove_first
contains-remove_first [] x d = refl
contains-remove_first (y ∷ xs) x d =
    ground (arith, contains-remove_first xs x d.1, In-of_contains xs x)

module _ {J : Type 0} (m : TaskManager J) where
  -- Both tasks exist, they differ, and the dependency does not
  -- depend on the task, directly or through others.
  pub record Admissible (id dep_id : String) : Type 0 where
    pub task : Task J
    pub dependency : Task J
    pub has_task : lookup id m.tasks ≡ some task
    pub has_dependency : lookup dep_id m.tasks ≡ some dependency
    pub distinct : id ≢ dep_id
    pub apart : ¬ Reach m.tasks dep_id id

  -- If both tasks exist, they differ, and the dependency does not depend on the task, directly or
  -- through others, then `add_dependency` answers true, and the task has the dependency after it.
  pub add_dependency_accepts :
      (now : ℕ) (id dep_id : String)
      → Admissible id dep_id
      → ((add_dependency m now id dep_id).result ≡ true)
        × (has_dependency (add_dependency m now id dep_id).state id dep_id ≡ true)
  unfolding add_dependency has_dependency
  add_dependency_accepts now id dep_id a =
      let t = a.task in
      let free : would_create_cycle m.tasks id dep_id ≡ false =
        elim (Bool-cases (would_create_cycle m.tasks id dep_id)) [
          | inl yes_ ↦ absurd (a.apart (would_create_cycle-true m.tasks id dep_id yes_))
          | inr no_ ↦ no_
        ] in
      let t' : Task J = record t {
        dependencies = t.dependencies ++ dep_id ∷ [];
        updated_at = now;
      } in
      ground (
        arith,
        a.has_task,
        a.has_dependency,
        a.distinct,
        free,
        lookup-insert id id t' m.tasks,
        contains-snoc t.dependencies dep_id,
      )

  -- If `add_dependency` answers false, it changed nothing and told nobody, and the dependency was
  -- not admissible: a task is missing, they are the same, or there would be a cycle.
  pub add_dependency_refuses :
      (now : ℕ) (id dep_id : String)
      → (add_dependency m now id dep_id).result ≡ false
      → ((add_dependency m now id dep_id).state ≡ m)
        × ((add_dependency m now id dep_id).sent ≡ [])
        × ¬ Admissible id dep_id
  unfolding add_dependency
  add_dependency_refuses now id dep_id h =
      (ground arith, ground arith, λ a. cc (h, (add_dependency_accepts now id dep_id a).0))

  -- In a table that has the invariant, a task does not have the dependency after
  -- `remove_dependency`.
  pub remove_dependency_gone :
      (now : ℕ) (id dep_id : String)
      → Inv m.tasks
      → has_dependency (remove_dependency m now id dep_id).state id dep_id ≡ false
  unfolding remove_dependency has_dependency
  remove_dependency_gone now id dep_id v = elim (Option-cases (lookup id m.tasks)) [
    | inl e ↦ ground arith
    | inr (t, e) ↦
        let t' : Task J = record t {
          dependencies = remove_first dep_id t.dependencies;
          updated_at = now;
        } in
        ground (
          arith,
          lookup-insert id id t' m.tasks,
          contains-remove_first t.dependencies dep_id (v.sound id t e).deps_once,
        )
  ]
