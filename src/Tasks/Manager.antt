-- ===== src/Tasks/Manager.antt =====
-- `TaskManager`. Each method holds `mutex_` while it works on the table, so a call is one step. A
-- reading of the clock and a generated UUID are arguments; the log lines are left out.
use swarm_mcp.Prelude.{
  ℕ, String, Bool, true, false, Option, none, some, List, [], ◌∷◌, ◌++◌, Effect, contains, ◌==◌,
  if◌then◌else◌,
}
use swarm_mcp.Dict.{Dict, lookup, insert}
use swarm_mcp.Dict
use swarm_mcp.Tasks.Task.{
  Task, TaskStatus, TaskPriority, pending, in_progress, is_completed, remove_first,
}
use swarm_mcp.Tasks.Search.{would_create_cycle}

-- `listening`: a callback is registered.
pub record TaskManager (J : Type 0) : Type 0 where
  pub tasks : Dict (Task J)
  pub listening : Bool

abbrev pub Outcome : Type 0 → Type 0 → Type 0
Outcome J A = Effect (TaskManager J) A (String × Task J)

module _ {J : Type 0} where
  unfoldable pub empty : TaskManager J
  empty = record { tasks = []; listening = false }

  -- `given` is whether the callback that is handed over can be called.
  unfoldable pub on_task_event : TaskManager J → (given : Bool) → TaskManager J
  on_task_event m given = record m { listening = given }

  unfoldable pub notify : TaskManager J → String → Task J → List (String × Task J)
  notify m event task = if m.listening then (event, task) ∷ [] else []

  -- The table gets `task` at `id`, and the callback is told of `event`.
  unfoldable pub commit : {A : Type 0} → TaskManager J → String → Task J → String → A → Outcome J A
  unfolding notify
  commit m id task event a = record {
    state = record m { tasks = insert id task m.tasks };
    result = a;
    sent = notify m event task;
  }

  unfoldable pub unchanged : {A : Type 0} → TaskManager J → A → Outcome J A
  unchanged m a = record { state = m; result = a; sent = [] }

  -- `task.created_at` and `task.updated_at` read the clock one after the other; `null` is the JSON
  -- value that a new context holds, and `uuid` is what `generate_uuid` returned.
  unfoldable pub create_task :
      TaskManager J
      → (null : J) (uuid : String) (now now' : ℕ) → (title creator description : String)
      → TaskPriority
      → Outcome J (Task J)
  unfolding commit
  create_task m null uuid now now' title creator description priority =
      let task : Task J = record {
        id = uuid;
        title = title;
        description = description;
        assignee = "";
        creator = creator;
        status = pending;
        priority = priority;
        dependencies = [];
        tags = [];
        context = null;
        created_at = now;
        updated_at = now';
        deadline = none;
        completed_at = none;
      } in
      commit m task.id task "task.created" task

  unfoldable pub restore_task : TaskManager J → Task J → Outcome J Unit
  unfolding commit
  restore_task m task = commit m task.id task "task.restored" tt

  unfoldable pub get_task : TaskManager J → String → Option (Task J)
  get_task m id = lookup id m.tasks

  unfoldable pub update_task : TaskManager J → ℕ → String → Task J → Outcome J Bool
  unfolding commit unchanged
  update_task m now id task = elim (lookup id m.tasks) [
    | none ↦ unchanged m false
    | some old ↦ commit m id (record task { updated_at = now }) "task.updated" true
  ]

  unfoldable pub delete_task : TaskManager J → String → Outcome J Bool
  unfolding notify unchanged
  delete_task m id = elim (lookup id m.tasks) [
    | none ↦ unchanged m false
    | some task ↦ record {
      state = record m { tasks = Dict.erase id m.tasks };
      result = true;
      sent = notify m "task.deleted" task;
    }
  ]

  unfoldable pub assign_task : TaskManager J → ℕ → String → String → Outcome J Bool
  unfolding commit unchanged
  assign_task m now id agent_id = elim (lookup id m.tasks) [
    | none ↦ unchanged m false
    | some task ↦
        commit m id (record task { assignee = agent_id; status = in_progress; updated_at = now })
          "task.assigned" true
  ]

  unfoldable pub set_status : TaskManager J → (now now' : ℕ) → String → TaskStatus → Outcome J Bool
  unfolding commit unchanged
  set_status m now now' id status = elim (lookup id m.tasks) [
    | none ↦ unchanged m false
    | some task ↦
        let stamp = if is_completed status then some now' else task.completed_at in
        commit m id (record task { status = status; updated_at = now; completed_at = stamp })
          "task.status_changed" true
  ]

  unfoldable pub add_dependency : TaskManager J → ℕ → String → String → Outcome J Bool
  unfolding commit unchanged
  add_dependency m now id dep_id = elim (lookup id m.tasks) [
    | none ↦ unchanged m false
    | some task ↦ elim (lookup dep_id m.tasks) [
      | none ↦ unchanged m false
      | some _ ↦
          if id == dep_id
          then unchanged m false
          else if would_create_cycle m.tasks id dep_id
          then unchanged m false
          else if contains task.dependencies dep_id
          then unchanged m true
          else commit m id
              (record task { dependencies = task.dependencies ++ dep_id ∷ []; updated_at = now })
              "task.dependency_added" true
    ]
  ]

  unfoldable pub remove_dependency : TaskManager J → ℕ → String → String → Outcome J Bool
  unfolding commit unchanged
  remove_dependency m now id dep_id = elim (lookup id m.tasks) [
    | none ↦ unchanged m false
    | some task ↦
        if contains task.dependencies dep_id
        then commit m id
            (record task { dependencies = remove_first dep_id task.dependencies; updated_at = now })
            "task.dependency_removed" true
        else unchanged m true
  ]

  -- No callback is told of a new tag.
  unfoldable pub add_tag : TaskManager J → ℕ → String → String → Outcome J Bool
  unfolding unchanged
  add_tag m now id tag = elim (lookup id m.tasks) [
    | none ↦ unchanged m false
    | some task ↦
        if contains task.tags tag
        then unchanged m true
        else unchanged
            (record m {
              tasks =
                  insert id (record task { tags = task.tags ++ tag ∷ []; updated_at = now })
                    m.tasks;
            })
            true
  ]

  unfoldable pub has_dependency : TaskManager J → String → String → Bool
  has_dependency m id dep_id = elim (lookup id m.tasks) [
    | none ↦ false
    | some task ↦ contains task.dependencies dep_id
  ]
