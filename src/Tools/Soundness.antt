-- ===== src/Tools/Soundness.antt =====
-- What the tools for tasks do to the task manager.
use swarm_mcp.Prelude.{
  ℕ, suc, String, ◌≡◌, refl, sym, subst, ◌∙◌, ap, Bool-cases, inl, inr, List, [], ◌∷◌, ◌++◌, arith,
  Option-cases, if◌then◌else◌,
}
use swarm_mcp.Mcp.Json.{Answer, returns, throws, RpcJson}
use swarm_mcp.Mcp.Protocol.{Handler}
use swarm_mcp.Tasks.Task.{Task, is_completed, task_status_from_str}
use swarm_mcp.Tasks.Manager.{TaskManager, create_task, assign_task, set_status, get_task}
use swarm_mcp.Tasks.History.{
  Call, create, assign, change_status, depend, tag, step, run, Inv, run-Inv,
}
use swarm_mcp.Tools.Tasks.{
  TaskTool, create_tool, list_tool, assign_tool, update_status_tool, get_tool, ready_tool,
  handler_of, Caller, Collab, add_tags, add_dependencies, member_elements, creation, finish_create,
  and_then, with_tasks, two_texts, announce_change, task_create, task_assign, task_update_status,
  task_get, task_ready, task_list, filter_from_args,
}

module _ (json : RpcJson) (each : json.lib.Value → List json.lib.Value) (clock : ℕ → ℕ)
    (fresh : ℕ → String) where
  open json use {lib}
  open lib use {Value, null, as_text, value}

  abbrev S : Type 0
  S = Collab Value

  run-append :
      (m : TaskManager Value) (xs ys : List (Call Value)) → run m (xs ++ ys) ≡ run (run m xs) ys
  unfolding run
  run-append m [] ys = refl
  run-append m (x ∷ xs) ys = run-append (step m x) xs ys

  -- From one manager to another by calls of it.
  abbrev pub Reached : TaskManager Value → TaskManager Value → Type 0
  Reached m m' = (cs : List (Call Value)) × (m' ≡ run m cs)

  Reached-same : (m : TaskManager Value) → Reached m m
  unfolding run
  Reached-same m = ([], refl)

  Reached-one : (m : TaskManager Value) (c : Call Value) → Reached m (step m c)
  unfolding run
  Reached-one m c = (c ∷ [], refl)

  Reached-trans : (m m' m'' : TaskManager Value) → Reached m m' → Reached m' m'' → Reached m m''
  Reached-trans m m' m'' (xs, e) (ys, f) =
      (xs ++ ys, f ∙ ap (λ x. run x ys) e ∙ sym (run-append m xs ys))

  add_tags-Reached :
      (vs : List Value) (id : String) (w : S)
      → Reached w.tasks (add_tags json each clock fresh vs id w).1.tasks
  unfolding add_tags step
  add_tags-Reached [] id w = Reached-same w.tasks
  add_tags-Reached (v ∷ vs) id w = elim (Option-cases (as_text v)) [
    | inl bad ↦ subst (Reached w.tasks) (ground arith) (Reached-same w.tasks)
    | inr (name, e) ↦
        let m = step w.tasks (tag (clock w.asked) id name) in
        let rest = add_tags-Reached vs id (with_tasks json each clock fresh w m) in
        subst (Reached w.tasks) (ground arith)
          (Reached-trans w.tasks m _ (Reached-one w.tasks (tag (clock w.asked) id name)) rest)
  ]

  add_dependencies-Reached :
      (vs : List Value) (id : String) (w : S)
      → Reached w.tasks (add_dependencies json each clock fresh vs id w).1.tasks
  unfolding add_dependencies step
  add_dependencies-Reached [] id w = Reached-same w.tasks
  add_dependencies-Reached (v ∷ vs) id w = elim (Option-cases (as_text v)) [
    | inl bad ↦ subst (Reached w.tasks) (ground arith) (Reached-same w.tasks)
    | inr (name, e) ↦
        let m = step w.tasks (depend (clock w.asked) id name) in
        let rest = add_dependencies-Reached vs id (with_tasks json each clock fresh w m) in
        subst (Reached w.tasks) (ground arith)
          (Reached-trans w.tasks m _ (Reached-one w.tasks (depend (clock w.asked) id name)) rest)
  ]

  finish_create-tasks :
      (caller : Caller) (task : Task Value) (r : Answer Unit × S)
      → (finish_create json each clock fresh caller task r).1.tasks ≡ r.1.tasks
  finish_create-tasks caller task (throws what, w) = refl
  finish_create-tasks caller task (returns u, w) = refl

  and_then-Reached :
      (m : TaskManager Value) (f : S → Answer Unit × S) (r : Answer Unit × S)
      → Reached m r.1.tasks
      → ((w : S) → Reached w.tasks (f w).1.tasks)
      → Reached m (and_then json each clock fresh f r).1.tasks
  and_then-Reached m f (throws what, w) before go = before
  and_then-Reached m f (returns u, w) before go = Reached-trans m w.tasks _ before (go w)

  announce_change-tasks :
      (w : S) (event id : String) (caller : Caller)
      → (announce_change json each clock fresh w event id caller).1.tasks ≡ w.tasks
  announce_change-tasks w event id caller = elim (Option-cases (get_task w.tasks id)) [
    | inl gone ↦ ground arith
    | inr (task, e) ↦ ground arith
  ]

  -- The tools whose arguments and state are `args` and `w` leave the manager after calls of it.
  abbrev pub Calls : Handler Value S → Type 0
  Calls handler = (args : Value) (w : S) → Reached w.tasks (handler args w).1.tasks

  task_create-Calls : Calls (task_create json each clock fresh)
  unfolding task_create step
  task_create-Calls args w = elim (Option-cases (creation json each clock fresh args)) [
    | inl bad ↦ subst (Reached w.tasks) (ground arith) (Reached-same w.tasks)
    | inr (c, e) ↦
        let call =
          create null (fresh w.asked) (clock w.asked) (clock (suc w.asked)) c.title c.creator
            c.description c.priority in
        let made =
          create_task w.tasks null (fresh w.asked) (clock w.asked) (clock (suc w.asked)) c.title
            c.creator c.description c.priority in
        let id = made.result.id in
        let w' = with_tasks json each clock fresh w made.state in
        let tagged =
          add_tags json each clock fresh (member_elements json each clock fresh args "tags") id
            w' in
        let more : S → Answer Unit × S = λ v.
          add_dependencies json each clock fresh
            (member_elements json each clock fresh args "dependencies") id v in
        let all = and_then json each clock fresh more tagged in
        subst (Reached w.tasks) (ground (arith, finish_create-tasks c.caller made.result all)) (
          and_then-Reached w.tasks more tagged
            (Reached-trans w.tasks made.state _ (Reached-one w.tasks call)
              (add_tags-Reached (member_elements json each clock fresh args "tags") id w'))
            (add_dependencies-Reached (member_elements json each clock fresh args "dependencies")
              id))
  ]

  task_assign-Calls : Calls (task_assign json each clock fresh)
  unfolding task_assign step
  task_assign-Calls args w =
      elim (Option-cases (two_texts json each clock fresh args "task_id" "agent_id")) [
        | inl bad ↦ subst (Reached w.tasks) (ground arith) (Reached-same w.tasks)
        | inr ((caller, (task_id, agent_id)), e) ↦
            let call : Call Value = assign (clock w.asked) task_id agent_id in
            let w' = with_tasks json each clock fresh w (step w.tasks call) in
            let done = announce_change-tasks w' "task.assigned" task_id caller in
            elim (Bool-cases (assign_task w.tasks (clock w.asked) task_id agent_id).result) [
              | inl ok ↦ subst (Reached w.tasks) (ground (arith, done)) (Reached-one w.tasks call)
              | inr no_task ↦ subst (Reached w.tasks) (ground arith) (Reached-one w.tasks call)
            ]
      ]

  task_update_status-Calls : Calls (task_update_status json each clock fresh)
  unfolding task_update_status step
  task_update_status-Calls args w =
      elim (Option-cases (two_texts json each clock fresh args "task_id" "status")) [
        | inl bad ↦ subst (Reached w.tasks) (ground arith) (Reached-same w.tasks)
        | inr ((caller, (task_id, status_text)), e) ↦
            let status = task_status_from_str status_text in
            let call : Call Value =
              change_status (clock w.asked) (clock (suc w.asked)) task_id status in
            let w' = with_tasks json each clock fresh w (step w.tasks call) in
            let event = if is_completed status then "task.completed" else "task.status_changed" in
            let done = announce_change-tasks w' event task_id caller in
            elim (Bool-cases
              (set_status w.tasks (clock w.asked) (clock (suc w.asked)) task_id status).result) [
                | inl ok ↦ subst (Reached w.tasks) (ground (arith, done)) (Reached-one w.tasks call)
                | inr no_task ↦ subst (Reached w.tasks) (ground arith) (Reached-one w.tasks call)
              ]
      ]

  task_get-Calls : Calls (task_get json each clock fresh)
  unfolding task_get
  task_get-Calls args w = elim (Option-cases (value as_text args "task_id" "")) [
    | inl bad ↦ subst (Reached w.tasks) (ground arith) (Reached-same w.tasks)
    | inr (task_id, e) ↦ elim (Option-cases (get_task w.tasks task_id)) [
      | inl gone ↦ subst (Reached w.tasks) (ground arith) (Reached-same w.tasks)
      | inr (task, f) ↦ subst (Reached w.tasks) (ground arith) (Reached-same w.tasks)
    ]
  ]

  task_ready-Calls : Calls (task_ready json each clock fresh)
  unfolding task_ready
  task_ready-Calls args w = Reached-same w.tasks

  task_list-Calls : Calls (task_list json each clock fresh)
  unfolding task_list
  task_list-Calls args w = elim (Option-cases (filter_from_args json each clock fresh args)) [
    | inl bad ↦ subst (Reached w.tasks) (ground arith) (Reached-same w.tasks)
    | inr (filter, e) ↦ subst (Reached w.tasks) (ground arith) (Reached-same w.tasks)
  ]

  tool-Calls : (t : TaskTool) → Calls (handler_of json each clock fresh t)
  tool-Calls create_tool = task_create-Calls
  tool-Calls list_tool = task_list-Calls
  tool-Calls assign_tool = task_assign-Calls
  tool-Calls update_status_tool = task_update_status-Calls
  tool-Calls get_tool = task_get-Calls
  tool-Calls ready_tool = task_ready-Calls

  -- One call of a tool after another, with any arguments; a call that throws leaves what it has done.
  abbrev pub run_tools : List (TaskTool × Value) → S → S
  run_tools [] w = w
  run_tools ((t, args) ∷ rest) w = run_tools rest (handler_of json each clock fresh t args w).1

  -- Whatever tools for tasks are called, with any arguments, also where a call throws halfway: the
  -- dependencies have no cycle, each task lies under its own id, and no task lists a dependency or a
  -- tag twice, if that was so before.
  pub run_tools-Inv :
      (calls : List (TaskTool × Value)) (w : S)
      → Inv w.tasks.tasks
      → Inv (run_tools calls w).tasks.tasks
  run_tools-Inv [] w v = v
  run_tools-Inv ((t, args) ∷ rest) w v =
      let (cs, e) = tool-Calls t args w in
      run_tools-Inv rest (handler_of json each clock fresh t args w).1
        (subst (λ m. Inv m.tasks) (sym e) (run-Inv w.tasks cs v))
