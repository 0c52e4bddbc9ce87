-- ===== src/Tasks/Stores.antt =====
-- The table after any calls, also those that store a task as it is handed to them.
use swarm_mcp.Prelude.{
  ℕ, String, ◌≡◌, sym, subst, ◌⊎◌, inl, inr, List, [], ◌∷◌, In, arith, Option-cases,
  String_discrete,
}
use swarm_mcp.Dict.{Dict, lookup, insert, Every-insert, Once-insert}
use swarm_mcp.Tasks.Task.{Task}
use swarm_mcp.Tasks.Search.Graph.{Edge, Reach, here, step, IsAcyclic, Reach-trans}
use swarm_mcp.Tasks.Acyclic.{deps_of-insert}
use swarm_mcp.Tasks.Manager.{TaskManager, empty, restore_task, update_task}
use swarm_mcp.Tasks.History.{Call, IsSound, Inv, Inv-empty, step as step_call, step-Inv}

module _ {J : Type 0} (ts : Dict (Task J)) (k : String) (t : Task J)
    (apart : (x : String) → In x t.dependencies → ¬ Reach ts x k) where
  abbrev stored : Dict (Task J)
  stored = insert k t ts

  Edge-cases : (a b : String) → Edge stored a b → Edge ts a b ⊎ ((a ≡ k) × In b t.dependencies)
  Edge-cases a b e = elim (String_discrete k a) [
    | yes hit ↦ inr (sym hit, ground (arith, deps_of-insert ts k a t))
    | no miss ↦ inl (ground (arith, deps_of-insert ts k a t))
  ]

  -- A path that uses a dependency of the stored task comes to it first.
  Through : String → String → Type 0
  Through a b = Reach ts a k × ((d : String) × (In d t.dependencies × Reach ts d b))

  Reach-cases : {a b : String} → Reach stored a b → Reach ts a b ⊎ Through a b
  unfolding Through
  Reach-cases here = inl here
  Reach-cases (step {b} {c} p e) = elim (Edge-cases b c e) [
    | inl old ↦ elim (Reach-cases p) [
      | inl q ↦ inl (step q old)
      | inr (q, (d, (at, r))) ↦ inr (q, (d, (at, step r old)))
    ]
    | inr (same, at) ↦ elim (Reach-cases p) [
      | inl q ↦ inr (subst (Reach ts _) same q, (c, (at, here)))
      | inr (q, rest) ↦ inr (q, (c, (at, here)))
    ]
  ]

  IsAcyclic-store : IsAcyclic ts → IsAcyclic stored
  unfolding Through
  IsAcyclic-store h a b e p = elim (Edge-cases a b e) [
    | inl old ↦ elim (Reach-cases p) [
      | inl q ↦ h a b old q
      | inr (q, (d, (at, r))) ↦ apart d at (Reach-trans (step r old) q)
    ]
    | inr (same, at) ↦ elim (Reach-cases p) [
      | inl q ↦ apart b at (subst (Reach ts b) same q)
      | inr (q, rest) ↦ apart b at q
    ]
  ]

  Inv-store : IsSound k t → Inv ts → Inv stored
  Inv-store ok v = record {
    acyclic = IsAcyclic-store v.acyclic;
    sound = Every-insert IsSound k t ts ok v.sound;
    once = Once-insert k t ts v.once;
  }

pub data AnyCall (J : Type 0) : Type 0 where
  call : Call J → AnyCall J
  restore : Task J → AnyCall J
  update : (now : ℕ) (id : String) → Task J → AnyCall J

module _ {J : Type 0} where
  abbrev pub step_any : TaskManager J → AnyCall J → TaskManager J
  step_any m (call c) = step_call m c
  step_any m (restore task) = (restore_task m task).state
  step_any m (update now id task) = (update_task m now id task).state

  abbrev pub run_any : TaskManager J → List (AnyCall J) → TaskManager J
  run_any m [] = m
  run_any m (c ∷ cs) = run_any (step_any m c) cs

  -- A task that may be stored under an id: it has that id, lists no dependency and no tag twice, and no
  -- chain of dependencies leads from one of its own back to the id.
  pub record MayStore (m : TaskManager J) (id : String) (t : Task J) : Type 0 where
    pub sound : IsSound id t
    pub apart : (x : String) → In x t.dependencies → ¬ Reach m.tasks x id

  abbrev pub Allowed : TaskManager J → AnyCall J → Type 0
  Allowed m (call c) = Unit
  Allowed m (restore task) = MayStore m task.id task
  Allowed m (update now id task) = MayStore m id task

  abbrev pub AllAllowed : TaskManager J → List (AnyCall J) → Type 0
  AllAllowed m [] = Unit
  AllAllowed m (c ∷ cs) = Allowed m c × AllAllowed (step_any m c) cs

  step_any-Inv :
      (m : TaskManager J) (c : AnyCall J) → Allowed m c → Inv m.tasks → Inv (step_any m c).tasks
  unfolding restore_task update_task
  step_any-Inv m (call c) ok v = step-Inv m c v
  step_any-Inv m (restore task) ok v = Inv-store m.tasks task.id task ok.apart ok.sound v
  step_any-Inv m (update now id task) ok v = elim (Option-cases (lookup id m.tasks)) [
    | inl e ↦ rw (e, step_any, update_task) v
    | inr (old, e) ↦
        rw (e, step_any, update_task)
          (Inv-store m.tasks id (record task { updated_at = now }) ok.apart
            (record {
              keyed = ok.sound.keyed;
              deps_once = ok.sound.deps_once;
              tags_once = ok.sound.tags_once;
            })
            v)
  ]

  run_any-Inv :
      (m : TaskManager J) (cs : List (AnyCall J))
      → AllAllowed m cs
      → Inv m.tasks
      → Inv (run_any m cs).tasks
  run_any-Inv m [] ok v = v
  run_any-Inv m (c ∷ cs) ok v = run_any-Inv (step_any m c) cs ok.1 (step_any-Inv m c ok.0 v)

  -- After any calls on a new manager the dependencies have no cycle, each task lies under its own id,
  -- and no task lists a dependency or a tag twice; where a task that `restore_task` or `update_task` is
  -- handed has the id that it is stored under, lists no dependency and no tag twice, and no chain of
  -- the dependencies then stored leads from one of its own back to it.
  pub run_any-empty-Inv :
      (cs : List (AnyCall J)) → AllAllowed empty cs → Inv (run_any (empty {J = J}) cs).tasks
  unfolding empty
  run_any-empty-Inv cs ok = run_any-Inv _ cs ok Inv-empty
