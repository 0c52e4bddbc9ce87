-- ===== src/Tools/Register.antt =====
-- The registration of the tools for tasks.
use swarm_mcp.Prelude.{ℕ, String, List, [], ◌∷◌, map}
use swarm_mcp.Auth.Role.{
  Permission, task_create as may_create, task_read, task_assign as may_assign,
  task_update_status as may_update_status,
}
use swarm_mcp.Mcp.Json.{RpcJson}
use swarm_mcp.Mcp.Listing.{McpToolDef}
use swarm_mcp.Mcp.Protocol.{McpProtocol, register_tool}
use swarm_mcp.Tools.Tasks.{
  TaskTool, create_tool, list_tool, assign_tool, update_status_tool, get_tool, ready_tool, Collab,
  handler_of,
}

abbrev pub permission_of : TaskTool → Permission
permission_of create_tool = may_create
permission_of list_tool = task_read
permission_of assign_tool = may_assign
permission_of update_status_tool = may_update_status
permission_of get_tool = task_read
permission_of ready_tool = task_read

abbrev pub tool_name : TaskTool → String
tool_name create_tool = "task_create"
tool_name list_tool = "task_list"
tool_name assign_tool = "task_assign"
tool_name update_status_tool = "task_update_status"
tool_name get_tool = "task_get"
tool_name ready_tool = "task_ready"

abbrev pub tool_description : TaskTool → String
tool_description create_tool = "Create a new collaboration task that can be assigned to agents"
tool_description list_tool = "List tasks with optional filtering by status, assignee, or tags"
tool_description assign_tool = "Assign a task to an agent"
tool_description update_status_tool = "Update the status of a task"
tool_description get_tool = "Get details of a specific task by ID"
tool_description ready_tool =
    "List tasks whose dependencies are all completed and are ready to start"

-- The tools in the order in which they are registered.
abbrev pub task_tools : List TaskTool
task_tools = create_tool ∷ list_tool ∷ assign_tool ∷ update_status_tool ∷ get_tool ∷ ready_tool ∷ []

module _ (json : RpcJson) (each : json.lib.Value → List json.lib.Value) (clock : ℕ → ℕ)
    (fresh : ℕ → String) where
  open json use {lib, array}
  open lib use {Value, text, object}

  -- A member of the arguments that is a text, and what else its schema says.
  abbrev text_member : String → List (String × Value) → String × Value
  text_member name more = (name, object (("type", text "string") ∷ more))

  abbrev described : String → List (String × Value)
  described what = ("description", text what) ∷ []

  abbrev one_of : List String → List (String × Value)
  one_of names = ("enum", array (map text names)) ∷ []

  abbrev texts_member : String → String → String × Value
  texts_member name what = (
    name,
    object (
        ("type", text "array") ∷ ("items", object (("type", text "string") ∷ [])) ∷ described what),
  )

  abbrev statuses : List String
  statuses = "pending" ∷ "in_progress" ∷ "blocked" ∷ "completed" ∷ "failed" ∷ "cancelled" ∷ []

  abbrev schema : (properties more : List (String × Value)) → Value
  schema properties more =
      object (("type", text "object") ∷ ("properties", object properties) ∷ more)

  abbrev required : List String → List (String × Value)
  required names = ("required", array (map text names)) ∷ []

  abbrev create_schema : Value
  create_schema =
      schema
        (text_member "title" (described "Task title")
          ∷ text_member "description" (described "Task description")
          ∷ text_member "creator" (described "Agent ID creating the task")
          ∷ (
            "priority",
            object (
                ("type", text "string")
                ∷ ("enum", array (map text ("low" ∷ "medium" ∷ "high" ∷ "critical" ∷ [])))
                ∷ described "Task priority"),
          )
          ∷ texts_member "tags" "Tags for categorization"
          ∷ texts_member "dependencies" "IDs of tasks this depends on"
          ∷ [])
        (required ("title" ∷ "creator" ∷ []))

  abbrev list_schema : Value
  list_schema =
      schema
        (text_member "status" (one_of statuses)
          ∷ text_member "assignee" []
          ∷ text_member "tag" []
          ∷ text_member "search" []
          ∷ [])
        []

  abbrev assign_schema : Value
  assign_schema =
      schema (text_member "task_id" [] ∷ text_member "agent_id" [] ∷ [])
        (required ("task_id" ∷ "agent_id" ∷ []))

  abbrev update_status_schema : Value
  update_status_schema =
      schema (text_member "task_id" [] ∷ text_member "status" (one_of statuses) ∷ [])
        (required ("task_id" ∷ "status" ∷ []))

  abbrev get_schema : Value
  get_schema = schema (text_member "task_id" [] ∷ []) (required ("task_id" ∷ []))

  abbrev ready_schema : Value
  ready_schema = schema [] []

  abbrev pub schema_of : TaskTool → Value
  schema_of create_tool = create_schema
  schema_of list_tool = list_schema
  schema_of assign_tool = assign_schema
  schema_of update_status_tool = update_status_schema
  schema_of get_tool = get_schema
  schema_of ready_tool = ready_schema

  abbrev pub tool_def : TaskTool → McpToolDef Value
  tool_def t = record {
    name = tool_name t;
    description = tool_description t;
    input_schema = schema_of t;
    required_permission = permission_of t;
  }

  abbrev pub register_all :
      List TaskTool → McpProtocol Value (Collab Value) → McpProtocol Value (Collab Value)
  register_all [] p = p
  register_all (t ∷ ts) p =
      register_all ts (register_tool p (tool_def t) (handler_of json each clock fresh t))

  abbrev pub register_task_tools :
      McpProtocol Value (Collab Value) → McpProtocol Value (Collab Value)
  register_task_tools p = register_all task_tools p
