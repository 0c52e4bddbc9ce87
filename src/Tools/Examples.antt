-- ===== src/Tools/Examples.antt =====
-- The tools for tasks at concrete inputs.
use swarm_mcp.Prelude.{
  ℕ, String, ◌≡◌, refl, subst, inl, inr, List, [], ◌∷◌, none, some, map, length, String_discrete,
  true,
}
use swarm_mcp.Dict.{lookup, insert}
use swarm_mcp.Auth.Role.{observer, role_from_str, has_permission}
use swarm_mcp.Json.Values.{Value, text, item, empty, number, of_fields}
use swarm_mcp.Mcp.Values.{rpc_values}
use swarm_mcp.Mcp.Request.{McpRequest, parse_request, with_auth, check_auth, assign}
use swarm_mcp.Mcp.Protocol.{McpProtocol, ServerInfo, ServerCapabilities, protocol, register_tool}
use swarm_mcp.Mcp.Calls.{lacks, find_handler, tool_call, handle_tools_call}
use swarm_mcp.Mcp.Serve.{
  method_of, has_id, serve, when_initialized, by_method, handle_initialize, dispatch,
  handle_request,
}
use swarm_mcp.Mcp.History.{request as ask, run as run_requests}
use swarm_mcp.Tasks.Manager.{create_task, empty as no_tasks}
use swarm_mcp.Tasks.Task.{task_priority_from_str}
use swarm_mcp.Tasks.History.{run, run-empty-Inv, Inv}
use swarm_mcp.Tools.Tasks.{
  TaskTool, create_tool, assign_tool, Collab, auth_from_args, creation, add_tags, add_dependencies,
  task_create,
}
use swarm_mcp.Tools.Soundness.{run_tools, run_tools-Inv}
use swarm_mcp.Tools.Register.{register_task_tools}
use swarm_mcp.Tools.Readers.{FromObservers, observers-unchanged}

-- A loop over an array runs over its elements, over another value it runs once.
abbrev each : Value → List Value
each v = elim (rpc_values.items v) [ none ↦ v ∷ [] | some vs ↦ vs ]

abbrev clock : ℕ → ℕ
clock n = n

abbrev fresh : ℕ → String
fresh n = "t"

abbrev world : Collab Value
world = record { tasks = no_tasks; asked = 0; announced = [] }

abbrev create_args : Value
create_args = of_fields (
    ("title", text "a")
    ∷ ("tags", item (text "x") (item (text "x") empty))
    ∷ ("dependencies", item (text "t") empty)
    ∷ [])

abbrev assign_args : Value
assign_args = of_fields (("task_id", text "t") ∷ ("agent_id", text "b") ∷ [])

abbrev calls : List (TaskTool × Value)
calls = (create_tool, create_args) ∷ (assign_tool, assign_args) ∷ []

run_tools-Inv_example : Inv (run_tools rpc_values each clock fresh calls world).tasks.tasks
unfolding run
run_tools-Inv_example = run_tools-Inv rpc_values each clock fresh calls world (run-empty-Inv [])

abbrev server_info : ServerInfo
server_info = record { name = "swarm-mcp"; version = "1.0.0" }

abbrev capabilities : ServerCapabilities
capabilities = record { tools = true; resources = true; prompts = true; logging = true }

-- The creation of a task, by a caller of a role.
abbrev creating : String → Value
creating role = of_fields (
    ("id", number 7)
    ∷ ("method", text "tools/call")
    ∷ (
      "params",
      of_fields (
          ("name", text "task_create")
          ∷ ("arguments", of_fields (("title", text "a") ∷ []))
          ∷ (
            "_auth",
            of_fields
                (("agent_id", text "ann") ∷ ("role", text role) ∷ ("swarm_id", text "s") ∷ []),
          )
          ∷ []),
    )
    ∷ [])

abbrev starting : Value
starting = of_fields (("id", number 1) ∷ ("method", text "initialize") ∷ [])

abbrev asked_by : String → List Value
asked_by role = starting ∷ creating role ∷ []

abbrev new_protocol : McpProtocol Value (Collab Value)
new_protocol = register_task_tools rpc_values each clock fresh (protocol server_info capabilities)

abbrev after : String → Collab Value
after role =
    (run_requests rpc_values (Collab Value) (map ask (asked_by role)) (new_protocol, world)).1

same_role :
    (q req : McpRequest Value)
    → some q ≡ some req
    → q.auth_role ≡ observer
    → req.auth_role ≡ observer
same_role q req e o = cc

asked_by_observers : FromObservers rpc_values each clock fresh (asked_by "observer")
unfolding parse_request with_auth role_from_str String_discrete
asked_by_observers r (inl e) req parsed =
    same_role _ req (subst (λ x. parse_request rpc_values x ≡ some req) e parsed) refl
asked_by_observers r (inr (inl e)) req parsed =
    same_role _ req (subst (λ x. parse_request rpc_values x ≡ some req) e parsed) refl
asked_by_observers r (inr (inr x)) req parsed = elim x [ ]

observers-unchanged_example : after "observer" ≡ world
observers-unchanged_example =
    observers-unchanged rpc_values each clock fresh server_info capabilities (asked_by "observer")
      world asked_by_observers

-- A worker's request is carried out.
worker_creates : length (after "worker").tasks.tasks ≡ 1
unfolding handle_request parse_request with_auth role_from_str dispatch has_id method_of by_method
    when_initialized serve handle_initialize check_auth has_permission handle_tools_call tool_call
    assign find_handler lacks lookup insert register_tool protocol String_discrete task_create
    creation auth_from_args add_tags add_dependencies create_task task_priority_from_str no_tasks
worker_creates = refl
