-- ===== src/Tasks/History.antt =====
-- Calls of the manager keep the table well formed. `restore_task` and `update_task`, which store a task
-- as it is handed to them, are in Tasks/Stores.
use swarm_mcp.Prelude.{
  ℕ, Bool, String, ◌≡◌, refl, sym, subst, ◌∙◌, inl, inr, some, List, [], ◌∷◌, arith, In, Distinct,
  Distinct-snoc, contains, contains_of_In, Bool-cases, Option-cases, String_discrete,
}
use swarm_mcp.Dict.{
  Dict, lookup, insert, erase, Every, Every-nil, Every-insert, Every-erase, Once, Once-insert,
  Once-erase,
}
use swarm_mcp.Tasks.Task.{Task, TaskStatus, TaskPriority, remove_first}
use swarm_mcp.Tasks.Search.{deps_of}
use swarm_mcp.Tasks.Search.Graph.{IsAcyclic}
use swarm_mcp.Tasks.Acyclic.{
  In-remove_first, deps_of-insert, deps_of-erase, deps_of-some, IsAcyclic-mono, IsAcyclic-nil,
  add_dependency_cases, add_dependency-IsAcyclic,
}
use swarm_mcp.Tasks.Manager.{
  TaskManager, empty, create_task, delete_task, assign_task, set_status, add_dependency,
  remove_dependency, add_tag, on_task_event,
}

Distinct-remove_first : (x : String) (xs : List String) → Distinct xs → Distinct (remove_first x xs)
unfolding remove_first
Distinct-remove_first x [] d = tt
Distinct-remove_first x (y ∷ xs) d = elim (String_discrete y x) [
  | yes hit ↦ ground arith
  | no miss ↦ let rest = Distinct-remove_first x xs d.1 in ground (arith, In-remove_first y x xs)
]

pub data Call (J : Type 0) : Type 0 where
  create :
      (null : J) (uuid : String) (now now' : ℕ) (title creator description : String)
      → TaskPriority
      → Call J
  delete : String → Call J
  assign : (now : ℕ) (id agent_id : String) → Call J
  change_status : (now now' : ℕ) (id : String) → TaskStatus → Call J
  depend undepend : (now : ℕ) (id dep_id : String) → Call J
  tag : (now : ℕ) (id name : String) → Call J
  listen : (given : Bool) → Call J

module _ {J : Type 0} where
  unfoldable pub step : TaskManager J → Call J → TaskManager J
  step m (create null uuid now now' title creator description priority) =
      (create_task m null uuid now now' title creator description priority).state
  step m (delete id) = (delete_task m id).state
  step m (assign now id agent_id) = (assign_task m now id agent_id).state
  step m (change_status now now' id status) = (set_status m now now' id status).state
  step m (depend now id dep_id) = (add_dependency m now id dep_id).state
  step m (undepend now id dep_id) = (remove_dependency m now id dep_id).state
  step m (tag now id name) = (add_tag m now id name).state
  step m (listen given) = on_task_event m given

  unfoldable pub run : TaskManager J → List (Call J) → TaskManager J
  unfolding step
  run m [] = m
  run m (c ∷ cs) = run (step m c) cs

  -- A task lies under its own id, and lists no dependency and no tag twice.
  pub record IsSound (k : String) (t : Task J) : Type 0 where
    pub keyed : t.id ≡ k
    pub deps_once : Distinct t.dependencies
    pub tags_once : Distinct t.tags

  pub record Inv (ts : Dict (Task J)) : Type 0 where
    pub acyclic : IsAcyclic ts
    pub sound : Every IsSound ts
    pub once : Once ts

  pub Inv-empty : Inv []
  Inv-empty = record { acyclic = IsAcyclic-nil; sound = Every-nil IsSound; once = tt }

  -- A task that takes on no dependency may be stored.
  Inv-insert :
      (ts : Dict (Task J)) (k : String) (t : Task J)
      → IsSound k t
      → ((x : String) → In x t.dependencies → In x (deps_of ts k))
      → Inv ts
      → Inv (insert k t ts)
  Inv-insert ts k t ok fewer v = record {
    acyclic =
        IsAcyclic-mono ts (insert k t ts)
          (λ a b e. elim (String_discrete k a) [
            | yes hit ↦ ground (arith, deps_of-insert ts k a t, fewer b)
            | no miss ↦ ground (arith, deps_of-insert ts k a t)
          ])
          v.acyclic;
    sound = Every-insert IsSound k t ts ok v.sound;
    once = Once-insert k t ts v.once;
  }

  Inv-erase : (ts : Dict (Task J)) (k : String) → Inv ts → Inv (erase k ts)
  Inv-erase ts k v = record {
    acyclic =
        IsAcyclic-mono ts (erase k ts) (λ a b e. ground (arith, deps_of-erase ts k a)) v.acyclic;
    sound = Every-erase IsSound k ts v.sound;
    once = Once-erase k ts v.once;
  }

  depend-Inv :
      (m : TaskManager J) (now : ℕ) (id dep_id : String)
      → Inv m.tasks
      → Inv (add_dependency m now id dep_id).state.tasks
  depend-Inv m now id dep_id v = record {
    acyclic = add_dependency-IsAcyclic m now id dep_id v.acyclic;
    sound =
        add_dependency_cases m (λ n. Every IsSound n.tasks) now id dep_id v.sound
          λ t found new apart.
            let ok = v.sound id t found in
            Every-insert IsSound id _ m.tasks
              (record {
                keyed = ok.keyed;
                deps_once =
                    Distinct-snoc dep_id t.dependencies
                      (λ h. cc (new, contains_of_In t.dependencies dep_id h)) ok.deps_once;
                tags_once = ok.tags_once;
              })
              v.sound;
    once =
        add_dependency_cases m (λ n. Once n.tasks) now id dep_id v.once
          λ t found new apart. Once-insert id _ m.tasks v.once;
  }

  -- A call that stores at `id` a changed copy of the task that it found there.
  module _ (ts : Dict (Task J)) (v : Inv ts) (id : String) (t : Task J)
      (found : lookup id ts ≡ some t) where
    Inv-modify :
        (t' : Task J)
        → t'.id ≡ t.id
        → Distinct t'.tags
        → Distinct t'.dependencies
        → ((x : String) → In x t'.dependencies → In x t.dependencies)
        → Inv (insert id t' ts)
    Inv-modify t' same tags deps fewer =
        Inv-insert ts id t'
          (record { keyed = same ∙ (v.sound id t found).keyed; deps_once = deps; tags_once = tags })
          (λ x h. ground (arith, deps_of-some ts id t found, fewer x h)) v

    Inv-touch :
        (t' : Task J)
        → t'.id ≡ t.id
        → t'.tags ≡ t.tags
        → t'.dependencies ≡ t.dependencies
        → Inv (insert id t' ts)
    Inv-touch t' same tags deps =
        let ok = v.sound id t found in
        Inv-modify t' same (subst Distinct (sym tags) ok.tags_once)
          (subst Distinct (sym deps) ok.deps_once) (λ x h. subst (In x) deps h)

  pub step-Inv : (m : TaskManager J) (c : Call J) → Inv m.tasks → Inv (step m c).tasks
  unfolding step create_task delete_task assign_task set_status remove_dependency add_tag
      on_task_event
  step-Inv m (create null uuid now now' title creator description priority) v =
      Inv-insert m.tasks uuid _ (record { keyed = refl; deps_once = tt; tags_once = tt })
        (λ x h. absurd h) v
  step-Inv m (delete id) v = let q = Inv-erase m.tasks id v in ground arith
  step-Inv m (assign now id agent_id) v = elim (Option-cases (lookup id m.tasks)) [
    | inl e ↦ rw (e, step, assign_task) v
    | inr (t, e) ↦ rw (e, step, assign_task) (Inv-touch m.tasks v id t e _ refl refl refl)
  ]
  step-Inv m (change_status now now' id status) v = elim (Option-cases (lookup id m.tasks)) [
    | inl e ↦ rw (e, step, set_status) v
    | inr (t, e) ↦ rw (e, step, set_status) (Inv-touch m.tasks v id t e _ refl refl refl)
  ]
  step-Inv m (depend now id dep_id) v = depend-Inv m now id dep_id v
  step-Inv m (undepend now id dep_id) v = elim (Option-cases (lookup id m.tasks)) [
    | inl e ↦ rw (e, step, remove_dependency) v
    | inr (t, e) ↦ elim (Bool-cases (contains t.dependencies dep_id)) [
      | inl there ↦
          rw (e, step, remove_dependency, there)
            (Inv-modify m.tasks v id t e _ refl (v.sound id t e).tags_once
              (Distinct-remove_first dep_id t.dependencies (v.sound id t e).deps_once)
              (λ x. In-remove_first x dep_id t.dependencies))
      | inr gone ↦ rw (e, step, remove_dependency, gone) v
    ]
  ]
  step-Inv m (tag now id name) v = elim (Option-cases (lookup id m.tasks)) [
    | inl e ↦ rw (e, step, add_tag) v
    | inr (t, e) ↦ elim (Bool-cases (contains t.tags name)) [
      | inl there ↦ rw (e, step, add_tag, there) v
      | inr gone ↦
          rw (e, step, add_tag, gone)
            (Inv-modify m.tasks v id t e _ refl
              (Distinct-snoc name t.tags (λ h. cc (gone, contains_of_In t.tags name h))
                (v.sound id t e).tags_once)
              (v.sound id t e).deps_once (λ x h. h))
    ]
  ]
  step-Inv m (listen given) v = v

  pub run-Inv : (m : TaskManager J) (cs : List (Call J)) → Inv m.tasks → Inv (run m cs).tasks
  unfolding run
  run-Inv m [] v = v
  run-Inv m (c ∷ cs) v = run-Inv (step m c) cs (step-Inv m c v)

  -- After any of these calls on a new manager the dependencies have no cycle, each task lies under its own
  -- id, and no task lists a dependency or a tag twice.
  pub run-empty-Inv : (cs : List (Call J)) → Inv (run (empty {J = J}) cs).tasks
  unfolding empty
  run-empty-Inv cs = run-Inv _ cs Inv-empty
