-- ===== src/Tools/Tasks.antt =====
-- The handlers of the tools for tasks, over the task manager. `clock` and `fresh` are what the clock
-- and the UUID generator answer at their n-th call, and `each` is what a loop over a JSON value runs
-- over.
use swarm_mcp.Prelude.{
  ℕ, suc, String, true, false, Option, none, some, List, [], ◌∷◌, map, if◌then◌else◌,
}
use swarm_mcp.Json.{◌>>=◌}
use swarm_mcp.Auth.Role.{Role, observer, role_from_str}
use swarm_mcp.Tasks.Task.{
  Task, TaskStatus, TaskPriority, is_completed, task_status_from_str, task_priority_from_str,
}
use swarm_mcp.Tasks.Manager.{
  TaskManager, create_task, add_tag, add_dependency, assign_task, set_status, get_task,
}
use swarm_mcp.Tasks.Queries.{TaskFilter, list_tasks, get_ready_tasks}
use swarm_mcp.Tasks.Codec.{task_to_json}
use swarm_mcp.Mcp.Json.{Answer, returns, throws, RpcJson}
use swarm_mcp.Mcp.Protocol.{Handler}

-- The tools.
pub data TaskTool : Type 0 where
  create_tool list_tool assign_tool update_status_tool get_tool ready_tool : TaskTool

-- What `auth_from_args` sets of a token.
pub record Caller : Type 0 where
  pub agent_id : String
  pub role : Role
  pub swarm_id : String

-- What the handlers work on: the manager, how often the clock and the generator were asked, and what
-- was announced on the channels, the newest first.
pub record Collab (J : Type 0) : Type 0 where
  pub tasks : TaskManager J
  pub asked : ℕ
  pub announced : List (String × (J × Caller))

module _ (json : RpcJson) (each : json.lib.Value → List json.lib.Value) (clock : ℕ → ℕ)
    (fresh : ℕ → String) where
  open json use {lib, bool, array, type_error}
  open lib use {Value, null, text, object, member, as_text, value}

  unfoldable pub auth_from_args : Value → Option Caller
  auth_from_args args = elim (member args "_auth") [
    | none ↦ some (record { agent_id = ""; role = observer; swarm_id = "" })
    | some a ↦ value as_text a "agent_id" "" >>= λ agent_id.
        value as_text a "role" "observer" >>= λ role. value as_text a "swarm_id" "" >>= λ swarm_id.
        some (record { agent_id = agent_id; role = role_from_str role; swarm_id = swarm_id })
  ]

  abbrev pub State : Type 0
  State = Collab Value

  -- The manager after a call, which asks the clock twice at most.
  abbrev pub with_tasks : State → TaskManager Value → State
  with_tasks w m = record w { tasks = m; asked = suc (suc w.asked) }

  abbrev pub broadcast_event : State → String → Value → Caller → State
  broadcast_event w event payload caller = record w {
    announced = (event, (payload, caller)) ∷ w.announced;
  }

  -- The loops of `task_create`. They end where an element is no text, which throws.
  unfoldable pub add_tags : List Value → (id : String) → State → Answer Unit × State
  add_tags [] id w = (returns tt, w)
  add_tags (v ∷ vs) id w = elim (as_text v) [
    | none ↦ (throws (type_error v), w)
    | some tag ↦ add_tags vs id (with_tasks w (add_tag w.tasks (clock w.asked) id tag).state)
  ]

  unfoldable pub add_dependencies : List Value → (id : String) → State → Answer Unit × State
  add_dependencies [] id w = (returns tt, w)
  add_dependencies (v ∷ vs) id w = elim (as_text v) [
    | none ↦ (throws (type_error v), w)
    | some dep ↦
        add_dependencies vs id (with_tasks w (add_dependency w.tasks (clock w.asked) id dep).state)
  ]

  -- `for (const auto& e : args[key])`, if the member is there.
  abbrev pub member_elements : Value → String → List Value
  member_elements args key = elim (member args key) [ none ↦ [] | some v ↦ each v ]

  pub record Creation : Type 0 where
    pub caller : Caller
    pub title : String
    pub creator : String
    pub description : String
    pub priority : TaskPriority

  unfoldable pub creation : Value → Option Creation
  unfolding auth_from_args
  creation args = auth_from_args args >>= λ caller. value as_text args "title" "" >>= λ title.
      value as_text args "creator" "" >>= λ creator.
      value as_text args "description" "" >>= λ description.
      value as_text args "priority" "medium" >>= λ priority. some (record {
        caller = caller;
        title = title;
        creator = creator;
        description = description;
        priority = task_priority_from_str priority;
      })

  -- The task as it was created goes into the answer, without its tags and dependencies.
  abbrev pub finish_create : Caller → Task Value → Answer Unit × State → Answer Value × State
  finish_create caller task (throws what, w) = (throws what, w)
  finish_create caller task (returns u, w) = (
    returns (task_to_json lib task),
    broadcast_event w "task.created" (task_to_json lib task) caller,
  )

  abbrev pub and_then : (State → Answer Unit × State) → Answer Unit × State → Answer Unit × State
  and_then f (throws what, w) = (throws what, w)
  and_then f (returns u, w) = f w

  unfoldable pub task_create : Handler Value State
  unfolding creation add_tags add_dependencies
  task_create args w = elim (creation args) [
    | none ↦ (throws (type_error args), w)
    | some c ↦
        let made =
          create_task w.tasks null (fresh w.asked) (clock w.asked) (clock (suc w.asked)) c.title
            c.creator c.description c.priority in
        let id = made.result.id in
        finish_create c.caller made.result (
          and_then (λ v. add_dependencies (member_elements args "dependencies") id v)
            (add_tags (member_elements args "tags") id (with_tasks w made.state)))
  ]

  abbrev pub failure_json : String → Value
  failure_json error = object (("success", bool false) ∷ ("error", text error) ∷ [])

  -- The answer of a call that has changed a stored task, which is announced.
  abbrev pub announce_change : State → (event id : String) → Caller → Answer Value × State
  announce_change w event id caller = elim (get_task w.tasks id) [
    | none ↦ (throws "no task", w)
    | some task ↦ (
      returns (object (("success", bool true) ∷ ("task", task_to_json lib task) ∷ [])),
      broadcast_event w event (task_to_json lib task) caller,
    )
  ]

  -- The caller and two texts of the arguments.
  unfoldable pub two_texts : Value → (first second : String) → Option (Caller × (String × String))
  unfolding auth_from_args
  two_texts args first second = auth_from_args args >>= λ caller.
      value as_text args first "" >>= λ a.
      value as_text args second "" >>= λ b. some (caller, (a, b))

  unfoldable pub task_assign : Handler Value State
  unfolding two_texts get_task
  task_assign args w = elim (two_texts args "task_id" "agent_id") [
    | none ↦ (throws (type_error args), w)
    | some (caller, (task_id, agent_id)) ↦
        let done = assign_task w.tasks (clock w.asked) task_id agent_id in
        let w' = with_tasks w done.state in
        if done.result
        then announce_change w' "task.assigned" task_id caller
        else (returns (failure_json "Task not found"), w')
  ]

  unfoldable pub task_update_status : Handler Value State
  unfolding two_texts get_task
  task_update_status args w = elim (two_texts args "task_id" "status") [
    | none ↦ (throws (type_error args), w)
    | some (caller, (task_id, status_text)) ↦
        let status = task_status_from_str status_text in
        let done = set_status w.tasks (clock w.asked) (clock (suc w.asked)) task_id status in
        let w' = with_tasks w done.state in
        if done.result
        then announce_change w'
            (if is_completed status then "task.completed" else "task.status_changed") task_id caller
        else (returns (failure_json "Task not found"), w')
  ]

  unfoldable pub task_get : Handler Value State
  unfolding get_task
  task_get args w = elim (value as_text args "task_id" "") [
    | none ↦ (throws (type_error args), w)
    | some task_id ↦ elim (get_task w.tasks task_id) [
      | none ↦ (returns (object (("error", text "Task not found") ∷ [])), w)
      | some task ↦ (returns (task_to_json lib task), w)
    ]
  ]

  unfoldable pub task_ready : Handler Value State
  unfolding get_ready_tasks
  task_ready args w = (returns (array (map (task_to_json lib) (get_ready_tasks w.tasks))), w)

  -- A member of the filter: nothing if it is not there; a member that is no text throws.
  abbrev pub text_filter : Value → String → Option (Option String)
  text_filter args key = elim (member args key) [
    | none ↦ some none
    | some v ↦ as_text v >>= λ s. some (some s)
  ]

  abbrev pub status_of : Option String → Option TaskStatus
  status_of none = none
  status_of (some s) = some (task_status_from_str s)

  abbrev pub or_empty : Option String → String
  or_empty none = ""
  or_empty (some s) = s

  unfoldable pub filter_from_args : Value → Option TaskFilter
  filter_from_args args = text_filter args "status" >>= λ status.
      text_filter args "assignee" >>= λ assignee. text_filter args "tag" >>= λ tag.
      text_filter args "search" >>= λ search. some (record {
        status = status_of status;
        priority = none;
        assignee = assignee;
        tag = tag;
        search_term = or_empty search;
      })

  unfoldable pub task_list : Handler Value State
  unfolding filter_from_args
  task_list args w = elim (filter_from_args args) [
    | none ↦ (throws (type_error args), w)
    | some filter ↦ (returns (array (map (task_to_json lib) (list_tasks w.tasks filter))), w)
  ]

  abbrev pub handler_of : TaskTool → Handler Value State
  handler_of create_tool = task_create
  handler_of list_tool = task_list
  handler_of assign_tool = task_assign
  handler_of update_status_tool = task_update_status
  handler_of get_tool = task_get
  handler_of ready_tool = task_ready
