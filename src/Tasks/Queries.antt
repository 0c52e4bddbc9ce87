-- ===== src/Tasks/Queries.antt =====
-- `TaskFilter` and the read-only methods: `list_tasks`, `get_ready_tasks`, `get_agent_tasks`.
use swarm_mcp.Prelude.{
  String, Bool, true, false, ◌&&◌, ◌||◌, Option, none, some, List, [], ◌∷◌, contains, ◌==◌,
  if◌then◌else◌, decides,
}
use swarm_mcp.Text.{lower, occurs}
use swarm_mcp.Dict.{Dict, lookup, select}
use swarm_mcp.Tasks.Task.{
  Task, TaskStatus, TaskPriority, is_pending, is_completed, TaskStatus-discrete,
  TaskPriority-discrete,
}
use swarm_mcp.Tasks.Manager.{TaskManager}

pub record TaskFilter : Type 0 where
  pub status : Option TaskStatus
  pub priority : Option TaskPriority
  pub assignee : Option String
  pub tag : Option String
  pub search_term : String

abbrev pub any_filter : TaskFilter
any_filter = record {
  status = none;
  priority = none;
  assignee = none;
  tag = none;
  search_term = "";
}

-- Where a part of the filter is not set, every task passes it.
abbrev pub passes : {A : Type 0} → (A → Bool) → Option A → Bool
passes test none = true
passes test (some a) = test a

module _ {J : Type 0} where
  -- The term is looked for in the title and in the description, in any case of letters.
  unfoldable pub mentions : String → Task J → Bool
  mentions term t =
      if term == ""
      then true
      else occurs (lower term) (lower t.title) || occurs (lower term) (lower t.description)

  unfoldable pub selects : TaskFilter → Task J → Bool
  unfolding mentions
  selects f t =
      passes (λ s. decides (TaskStatus-discrete t.status s)) f.status
      && passes (λ p. decides (TaskPriority-discrete t.priority p)) f.priority
      && passes (λ a. t.assignee == a) f.assignee
      && passes (λ g. contains t.tags g) f.tag
      && mentions f.search_term t

  unfoldable pub list_tasks : TaskManager J → TaskFilter → List (Task J)
  list_tasks m f = select (selects f) m.tasks

  unfoldable pub get_agent_tasks : TaskManager J → String → List (Task J)
  unfolding list_tasks
  get_agent_tasks m agent_id = list_tasks m (record any_filter { assignee = some agent_id })

  -- The loop over the dependencies, which breaks at the first that is missing or not completed.
  unfoldable pub all_complete : Dict (Task J) → List String → Bool
  all_complete ts [] = true
  all_complete ts (d ∷ ds) = elim (lookup d ts) [
    | none ↦ false
    | some t ↦ if is_completed t.status then all_complete ts ds else false
  ]

  unfoldable pub get_ready_tasks : TaskManager J → List (Task J)
  get_ready_tasks m =
      select (λ t. is_pending t.status && all_complete m.tasks t.dependencies) m.tasks
