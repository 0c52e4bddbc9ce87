-- ===== src/Tools/Readers.antt =====
-- Which requests for the tools for tasks leave the tasks alone.
use swarm_mcp.Prelude.{
  ℕ, String, ◌≡◌, refl, sym, ◌∙◌, ap, subst, inl, inr, true, false, some, List, [], ◌∷◌, map, In,
  arith, Option-cases, String_discrete,
}
use std.Option.{some-injective}
use swarm_mcp.Dict.{lookup, lookup-insert}
use swarm_mcp.Auth.Role.{
  Role, observer, has_permission, task_create as may_create, task_assign as may_assign,
  task_update_status as may_update_status,
}
use swarm_mcp.Mcp.Json.{RpcJson}
use swarm_mcp.Mcp.Request.{McpRequest, parse_request}
use swarm_mcp.Mcp.Protocol.{
  McpProtocol, Handler, ServerInfo, ServerCapabilities, protocol, register_tool,
}
use swarm_mcp.Mcp.Serve.{handle_request}
use swarm_mcp.Mcp.Access.{Ran, Paired, handle_request-Ran, nothing, tool, resource, prompt}
use swarm_mcp.Mcp.History.{request, run, handle_request-Started}
use swarm_mcp.Tasks.Manager.{get_task}
use swarm_mcp.Tools.Tasks.{
  TaskTool, create_tool, list_tool, assign_tool, update_status_tool, get_tool, ready_tool, Collab,
  handler_of, task_list, task_get, task_ready, filter_from_args,
}
use swarm_mcp.Tools.Register.{
  permission_of, tool_name, tool_def, register_all, task_tools, register_task_tools,
}

module _ (json : RpcJson) (each : json.lib.Value → List json.lib.Value) (clock : ℕ → ℕ)
    (fresh : ℕ → String) where
  open json use {lib}
  open lib use {Value, value, as_text}

  abbrev S : Type 0
  S = Collab Value

  -- The handlers are those of the tools for tasks, each with its definition, and there are no others.
  record OnlyTasks (p : McpProtocol Value S) : Type 0 where
    tools :
        (k : String) (h : Handler Value S)
        → lookup k p.tool_handlers ≡ some h
        → (t : TaskTool) × (h ≡ handler_of json each clock fresh t)
          × (lookup k p.tools ≡ some (tool_def json each clock fresh t))
    resources : p.resource_handlers ≡ []
    prompts : p.prompt_handlers ≡ []

  register-OnlyTasks :
      (t : TaskTool) (p : McpProtocol Value S)
      → OnlyTasks p
      → OnlyTasks
          (register_tool p (tool_def json each clock fresh t) (handler_of json each clock fresh t))
  unfolding register_tool
  register-OnlyTasks t p o = record {
    tools = λ k h e.
        let def = tool_def json each clock fresh t in
        let handler = handler_of json each clock fresh t in
        elim (String_discrete (tool_name t) k) [
          | yes hit ↦ (
            t,
            some-injective {a = h} {b = handler}
                (ground (arith, lookup-insert (tool_name t) k handler p.tool_handlers)),
            ground (arith, lookup-insert (tool_name t) k def p.tools),
          )
          | no miss ↦
              let (u, same, known) =
                o.tools k h
                  (ground (arith, lookup-insert (tool_name t) k handler p.tool_handlers)) in
              (u, same, ground (arith, lookup-insert (tool_name t) k def p.tools))
        ];
    resources = o.resources;
    prompts = o.prompts;
  }

  register_all-OnlyTasks :
      (ts : List TaskTool) (p : McpProtocol Value S)
      → OnlyTasks p
      → OnlyTasks (register_all json each clock fresh ts p)
  register_all-OnlyTasks [] p o = o
  register_all-OnlyTasks (t ∷ ts) p o =
      register_all-OnlyTasks ts
        (register_tool p (tool_def json each clock fresh t) (handler_of json each clock fresh t))
        (register-OnlyTasks t p o)

  OnlyTasks-Paired : (p : McpProtocol Value S) → OnlyTasks p → Paired json S p
  unfolding lookup
  OnlyTasks-Paired p o = record {
    tools =
        λ k h e. let (t, same, known) = o.tools k h e in (tool_def json each clock fresh t, known);
    resources = λ k h e. let r = o.resources in cc;
  }

  -- What only reads.
  abbrev Reads : Role → Type 0
  Reads role =
      (has_permission role may_create ≡ false)
      × (has_permission role may_assign ≡ false)
      × (has_permission role may_update_status ≡ false)

  observer-Reads : Reads observer
  unfolding has_permission
  observer-Reads = (refl, refl, refl)

  tool-unchanged :
      (t : TaskTool) (role : Role) (args : Value) (w : S)
      → Reads role
      → has_permission role (permission_of t) ≡ true
      → (handler_of json each clock fresh t args w).1 ≡ w
  unfolding task_list task_get task_ready
  tool-unchanged create_tool role args w (c, a, u) may = cc
  tool-unchanged assign_tool role args w (c, a, u) may = cc
  tool-unchanged update_status_tool role args w (c, a, u) may = cc
  tool-unchanged list_tool role args w reads may =
      elim (Option-cases (filter_from_args json each clock fresh args)) [
        | inl bad ↦ ground arith
        | inr (filter, e) ↦ ground arith
      ]
  tool-unchanged get_tool role args w reads may =
      elim (Option-cases (value as_text args "task_id" "")) [
        | inl bad ↦ ground arith
        | inr (task_id, e) ↦ elim (Option-cases (get_task w.tasks task_id)) [
          | inl gone ↦ ground arith
          | inr (task, f) ↦ ground arith
        ]
      ]
  tool-unchanged ready_tool role args w reads may = refl

  Ran-unchanged :
      (p : McpProtocol Value S) (req : McpRequest Value) (w w' : S)
      → OnlyTasks p
      → Reads req.auth_role
      → Ran json S p req w w'
      → w' ≡ w
  unfolding lookup
  Ran-unchanged p req w w' o reads (nothing same) = same
  Ran-unchanged p req w w' o reads (tool name args handler call there def known may list e) =
      let (t, same, known') = o.tools name handler there in
      let def_t = tool_def json each clock fresh t in
      let eq : def ≡ def_t = cc in
      let may_t = subst (λ d. has_permission req.auth_role d.required_permission ≡ true) eq may in
      e ∙ ap (λ h. (h args w).1) same ∙ tool-unchanged t req.auth_role args w reads may_t
  Ran-unchanged p req w w' o reads (resource uri handler call there def known may list e) =
      let r = o.resources in cc
  Ran-unchanged p req w w' o reads (prompt name args handler call there may e) =
      let r = o.prompts in cc

  -- The requests come from observers, as far as they can be read.
  abbrev pub FromObservers : List Value → Type 0
  FromObservers rs =
      (r : Value)
      → In r rs
      → (req : McpRequest Value) → parse_request json r ≡ some req
      → req.auth_role ≡ observer

  request-unchanged :
      (p : McpProtocol Value S) (r : Value) (w : S)
      → OnlyTasks p
      → ((req : McpRequest Value) → parse_request json r ≡ some req → req.auth_role ≡ observer)
      → (handle_request json S p r w).1.1 ≡ w
  request-unchanged p r w o from = elim (handle_request-Ran json S p r w (OnlyTasks-Paired p o)) [
    | inl same ↦ same
    | inr (req, e, on, ran) ↦
        Ran-unchanged p req w _ o (subst Reads (sym (from req e)) observer-Reads) ran
  ]

  request-OnlyTasks :
      (p : McpProtocol Value S) (r : Value) (w : S)
      → OnlyTasks p
      → OnlyTasks (handle_request json S p r w).1.0
  request-OnlyTasks p r w o = elim (handle_request-Started json S p r w) [
    | inl same ↦ subst OnlyTasks (sym same) o
    | inr started ↦
        subst OnlyTasks (sym started)
          (record { tools = o.tools; resources = o.resources; prompts = o.prompts })
  ]

  run-unchanged :
      (rs : List Value) (p : McpProtocol Value S) (w : S)
      → OnlyTasks p
      → FromObservers rs
      → (run json S (map request rs) (p, w)).1 ≡ w
  run-unchanged [] p w o from = refl
  run-unchanged (r ∷ rs) p w o from =
      let s = (handle_request json S p r w).1 in
      run-unchanged rs s.0 s.1 (request-OnlyTasks p r w o) (λ q i. from q (inr i))
      ∙ request-unchanged p r w o (from r (inl refl))

  -- On a new protocol with the tools for tasks registered, no list of requests of observers changes
  -- a task, or anything else of the manager, or announces anything.
  pub observers-unchanged :
      (info : ServerInfo) (caps : ServerCapabilities) (rs : List Value) (w : S)
      → FromObservers rs
      → (run json S
          (map request rs)
          (register_task_tools json each clock fresh (protocol info caps), w)).1
        ≡ w
  unfolding protocol lookup
  observers-unchanged info caps rs w from =
      run-unchanged rs (register_task_tools json each clock fresh (protocol info caps)) w
        (register_all-OnlyTasks task_tools (protocol info caps)
          (record { tools = λ k h e. cc; resources = refl; prompts = refl }))
        from
