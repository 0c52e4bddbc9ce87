-- ===== src/Mcp/Calls.antt =====
-- The requests that run a registered handler: `tools/call`, `resources/read` and `prompts/get`. The
-- maps are looked up under the lock, and the handler runs after it is let go.
use Prim.Native.String.{◌++◌}
use swarm_mcp.Prelude.{String, Bool, true, false, not, Option, none, some, [], ◌∷◌, if◌then◌else◌}
use swarm_mcp.Dict.{lookup}
use swarm_mcp.Json.{◌>>=◌}
use swarm_mcp.Auth.Role.{Role, role_to_str, Permission, has_permission}
use swarm_mcp.Mcp.Json.{minus, Answer, returns, throws, RpcJson}
use swarm_mcp.Mcp.Request.{McpRequest, assign, error_result, content, contents}
use swarm_mcp.Mcp.Listing.{McpToolDef, McpResourceDef}
use swarm_mcp.Mcp.Protocol.{McpProtocol, Handler}

-- def_it != end() && !has_permission(role, def_it->second.required_permission)
unfoldable pub lacks : Role → Option Permission → Bool
lacks role none = false
lacks role (some required) = not (has_permission role required)

-- What the tables say of a name: no handler, a handler that the role may not run, or one to run.
pub data Found (H : Type 0) : Type 0 where
  missing forbidden : Found H
  runs : H → Found H

unfoldable pub find_handler : {H : Type 0} → Role → Option H → Option Permission → Found H
unfolding lacks
find_handler role none required = missing
find_handler role (some handler) required = if lacks role required then forbidden else runs handler

abbrev pub tool_permission : {J : Type 0} → Option (McpToolDef J) → Option Permission
tool_permission none = none
tool_permission (some def) = some def.required_permission

abbrev pub resource_permission : Option McpResourceDef → Option Permission
resource_permission none = none
resource_permission (some def) = some def.required_permission

module _ (json : RpcJson) (W : Type 0) where
  open json use {lib, as_bool, dump, type_error}
  open lib use {Value, null, object, set, is_object, is_null, member, as_text, value}

  -- args["_auth"] = params["_auth"]
  abbrev pub pass_auth : (params args : Value) → Option Value
  pass_auth params args = elim (member params "_auth") [
    | none ↦ some args
    | some auth ↦ assign json args "_auth" auth
  ]

  -- What `handle_tools_call` makes of what the handler returns or throws.
  unfoldable pub tool_result : Answer Value → Value
  unfolding content
  tool_result (throws what) = content json ("Error: " ++ what) true
  tool_result (returns result) =
      if is_object result
      then elim (value as_bool result "_is_error" false) [
        | none ↦ content json ("Error: " ++ type_error result) true
        | some is_error ↦ if is_error then result else content json (dump result) false
      ]
      else content json (dump result) false

  abbrev pub run_tool : Handler Value W → Value → W → Answer Value × W
  run_tool handler args w = let (answer, w') = handler args w in (returns (tool_result answer), w')

  -- The name and the arguments of a call.
  unfoldable pub tool_call : (params : Value) → Option (String × Value)
  unfolding assign
  tool_call params = value as_text params "name" "" >>= λ name.
      value some params "arguments" (object []) >>= λ args.
      pass_auth params args >>= λ args'. some (name, args')

  unfoldable pub handle_tools_call : McpProtocol Value W → McpRequest Value → W → Answer Value × W
  unfolding find_handler error_result tool_result tool_call
  handle_tools_call p req w = elim (tool_call req.params) [
    | none ↦ (throws (type_error req.params), w)
    | some (name, args) ↦
        elim (find_handler req.auth_role (lookup name p.tool_handlers)
          (tool_permission (lookup name p.tools))) [
            | missing ↦ (returns (error_result json (minus 32601) ("Tool not found: " ++ name)), w)
            | forbidden ↦ (
              returns (
                  error_result json (minus 32003) (
                    "Forbidden: role '"
                    ++ (role_to_str req.auth_role
                        ++ ("' lacks permission for tool '" ++ (name ++ "'"))))),
              w,
            )
            | runs handler ↦ run_tool handler args w
          ]
  ]

  -- What the two others make of it: `wrap` is for a result that is not marked as an error.
  unfoldable pub plain_result : (wrap : Value → Value) → Answer Value → Answer Value
  plain_result wrap (throws what) = throws what
  plain_result wrap (returns result) =
      if is_object result
      then elim (value as_bool result "_is_error" false) [
        | none ↦ throws (type_error result)
        | some is_error ↦ returns (if is_error then result else wrap result)
      ]
      else returns (wrap result)

  abbrev pub run_plain : (wrap : Value → Value) → Handler Value W → Value → W → Answer Value × W
  run_plain wrap handler args w =
      let (answer, w') = handler args w in (plain_result wrap answer, w')

  unfoldable pub handle_resources_read :
      McpProtocol Value W → McpRequest Value → W → Answer Value × W
  unfolding find_handler error_result plain_result contents
  handle_resources_read p req w = elim (value as_text req.params "uri" "") [
    | none ↦ (throws (type_error req.params), w)
    | some uri ↦
        elim (find_handler req.auth_role (lookup uri p.resource_handlers)
          (resource_permission (lookup uri p.resources))) [
            | missing ↦
                (returns (error_result json (minus 32602) ("Resource not found: " ++ uri)), w)
            | forbidden ↦ (
              returns (
                  error_result json (minus 32003) (
                    "Forbidden: role '"
                    ++ (role_to_str req.auth_role
                        ++ ("' lacks permission for resource '" ++ (uri ++ "'"))))),
              w,
            )
            | runs handler ↦
                run_plain (λ result. contents json uri (dump result)) handler req.params w
          ]
  ]

  unfoldable pub prompt_call : (params : Value) → Option (String × Value)
  prompt_call params = value as_text params "name" "" >>= λ name.
      value some params "arguments" (object []) >>= λ args. some (name, args)

  -- No permission is looked up for a prompt.
  unfoldable pub handle_prompts_get : McpProtocol Value W → McpRequest Value → W → Answer Value × W
  unfolding error_result plain_result prompt_call
  handle_prompts_get p req w = elim (prompt_call req.params) [
    | none ↦ (throws (type_error req.params), w)
    | some (name, args) ↦ elim (lookup name p.prompt_handlers) [
      | none ↦ (returns (error_result json (minus 32602) ("Prompt not found: " ++ name)), w)
      | some handler ↦ run_plain (λ result. object (("messages", result) ∷ [])) handler args w
    ]
  ]
