-- ===== src/Mcp/Examples.antt =====
-- The theorems on the protocol at concrete inputs, and tests of the definitions.
use swarm_mcp.Prelude.{
  arith, ℕ, ◌≤◌, String, ◌≡◌, ◌≢◌, ◌⊎◌, refl, ap, ◌+◌, Bool, true, false, some, List, [], ◌∷◌,
  length, take, drop, min, String_discrete,
}
use swarm_mcp.Dict.{Dict, lookup, insert}
use swarm_mcp.Auth.Role.{
  worker, coordinator, observer, task_create, admin, role_from_str, has_permission,
}
use swarm_mcp.Json.Values.{Value, text, number, null, nil, of_fields, member}
use swarm_mcp.Mcp.Json.{pos, minus, returns}
use swarm_mcp.Mcp.Values.{rpc_values}
use swarm_mcp.Mcp.Request.{
  McpRequest, parse_request, with_auth, check_auth, assign, make_error_response,
}
use swarm_mcp.Mcp.Listing.{McpToolDef, page, page_limit, tool_json, handle_tools_list}
use swarm_mcp.Mcp.Client.{fetch, fetch-all}
use swarm_mcp.Mcp.Lists.{
  may_use, tools_for, page-bounds, handle_tools_list_lem, handle_tools_list-next_cursor, Listed,
}
use swarm_mcp.Mcp.Protocol.{
  McpProtocol, Handler, ServerInfo, ServerCapabilities, protocol, register_tool,
}
use swarm_mcp.Mcp.Calls.{lacks, find_handler, tool_call, handle_tools_call}
use swarm_mcp.Mcp.Serve.{
  Method, initialize, method_of, has_id, serve, when_initialized, by_method, handle_initialize,
  dispatch, handle_request,
}
use swarm_mcp.Mcp.Access.{Ran, handle_request-Ran}
use swarm_mcp.Mcp.History.{
  Call, tool, request, run, run-protocol-Paired, Registered, run-protocol-Registered,
}
use swarm_mcp.Mcp.Replies.{IsReply, handle_request-IsReply}
use swarm_mcp.Mcp.Uninitialized.{IsRejected, dispatch-uninitialized}

-- The handlers write their names into a list.
abbrev writes : String → Handler Value (List String)
writes name args w = (returns (text "done"), name ∷ w)

abbrev echo_def : McpToolDef Value
echo_def = record {
  name = "echo";
  description = "says it";
  input_schema = nil;
  required_permission = task_create;
}

abbrev wipe_def : McpToolDef Value
wipe_def = record {
  name = "wipe";
  description = "wipes it";
  input_schema = nil;
  required_permission = admin;
}

abbrev info : ServerInfo
info = record { name = "swarm-mcp"; version = "1.0.0" }

abbrev caps : ServerCapabilities
caps = record { tools = true; resources = true; prompts = true; logging = false }

abbrev calls : List (Call rpc_values (List String))
calls = tool echo_def (writes "echo") ∷ tool wipe_def (writes "wipe") ∷ []

abbrev filled : McpProtocol Value (List String)
filled = (run rpc_values (List String) calls (protocol info caps, [])).0

abbrev starting : Value
starting = of_fields (("id", number 1) ∷ ("method", text "initialize") ∷ [])

abbrev calls_then_start : List (Call rpc_values (List String))
calls_then_start =
    tool echo_def (writes "echo") ∷ tool wipe_def (writes "wipe") ∷ request starting ∷ []

abbrev ready : McpProtocol Value (List String)
ready = (run rpc_values (List String) calls_then_start (protocol info caps, [])).0

started : ready.initialized ≡ true
unfolding handle_request parse_request with_auth dispatch has_id method_of by_method
    handle_initialize register_tool protocol String_discrete
started = refl

abbrev tools : Dict (McpToolDef Value)
tools = ("echo", echo_def) ∷ ("wipe", wipe_def) ∷ []

-- A call of a tool by a worker.
abbrev calling : String → Value
calling name = of_fields (
    ("id", number 7)
    ∷ ("method", text "tools/call")
    ∷ (
      "params",
      of_fields (
          ("name", text name)
          ∷ (
            "_auth",
            of_fields
                (("agent_id", text "ann") ∷ ("role", text "worker") ∷ ("swarm_id", text "s") ∷ []),
          )
          ∷ []),
    )
    ∷ [])

abbrev ran : Value → List String
ran r = (handle_request rpc_values (List String) ready r []).1.1

echo_runs : ran (calling "echo") ≡ "echo" ∷ []
unfolding handle_request parse_request with_auth role_from_str dispatch has_id method_of by_method
    when_initialized serve handle_initialize check_auth has_permission handle_tools_call tool_call
    assign find_handler lacks lookup insert register_tool protocol String_discrete
echo_runs = refl

wipe_does_not : ran (calling "wipe") ≡ []
unfolding handle_request parse_request with_auth role_from_str dispatch has_id method_of by_method
    when_initialized serve handle_initialize check_auth has_permission handle_tools_call tool_call
    assign find_handler lacks lookup insert register_tool protocol String_discrete
wipe_does_not = refl

run-protocol-Registered_example : Registered rpc_values (List String) calls filled
run-protocol-Registered_example =
    run-protocol-Registered rpc_values (List String) info caps calls []

abbrev L : Type 0
L = List String

handle_request-Ran_example :
    (ran (calling "echo") ≡ [])
    ⊎ ((req : McpRequest Value) × (parse_request rpc_values (calling "echo") ≡ some req)
        × (ready.initialized ≡ true)
        × Ran rpc_values L ready req [] (ran (calling "echo")))
handle_request-Ran_example =
    handle_request-Ran rpc_values L ready (calling "echo") []
      (run-protocol-Paired rpc_values L info caps calls_then_start [])

-- A request without a method.
abbrev nameless : Value
nameless = of_fields (("id", number 7) ∷ [])

abbrev asked : McpRequest Value
asked = record {
  jsonrpc = "2.0";
  id = some (number 7);
  method = "";
  params = nil;
  auth_agent_id = "";
  auth_role = observer;
  auth_swarm_id = "";
}

parsed : parse_request rpc_values nameless ≡ some asked
unfolding parse_request with_auth String_discrete
parsed = refl

abbrev told : Value
told = make_error_response rpc_values asked (minus 32600) "Invalid Request: missing method" null

refused : (handle_request rpc_values L ready nameless []).0 ≡ returns told
unfolding handle_request parse_request with_auth dispatch has_id make_error_response String_discrete
refused = refl

handle_request-IsReply_example :
    (req : McpRequest Value) × (parse_request rpc_values nameless ≡ some req)
    × IsReply rpc_values req told
handle_request-IsReply_example = handle_request-IsReply rpc_values L ready nameless [] told refused

abbrev pinging : McpRequest Value
pinging = record asked { method = "ping" }

abbrev is_initialize : Method → Bool
is_initialize initialize = true
is_initialize m = false

not_initialize : method_of "ping" ≢ initialize
unfolding method_of String_discrete
not_initialize e = absurd (cc (ap is_initialize e))

dispatch-uninitialized_example :
    IsRejected rpc_values L filled pinging [] (dispatch rpc_values L filled pinging [])
unfolding register_tool protocol
dispatch-uninitialized_example =
    dispatch-uninitialized rpc_values L filled pinging [] refl not_initialize

page-bounds_example :
    (1 ≤ page_limit (pos 5000))
    × (page_limit (pos 5000) ≤ 1000)
    × (length
          (page (may_use worker) (tool_json rpc_values) (pos 0) (page_limit (pos 5000)) 0 0 tools).0
        ≤ page_limit (pos 5000))
    × ((page (may_use worker) (tool_json rpc_values) (pos 0) (page_limit (pos 5000)) 0 0 tools).1
        ≤ 2)
page-bounds_example = page-bounds (may_use worker) (tool_json rpc_values) (pos 0) (pos 5000) tools

-- The second tool of a page of one.
abbrev second : Value
second = of_fields (("_cursor", number 1) ∷ ("_limit", number 1) ∷ [])

handle_tools_list_lem_example :
    (result : Value) × (handle_tools_list rpc_values coordinator second tools ≡ some result)
    × Listed rpc_values result
        (take (page_limit (pos 1)) (drop 1 (tools_for rpc_values coordinator tools)))
        (min (length (tools_for rpc_values coordinator tools)) (1 + page_limit (pos 1)))
        2
unfolding String_discrete
handle_tools_list_lem_example =
    handle_tools_list_lem rpc_values coordinator second tools (pos 1) (pos 1) refl refl

handle_tools_list-next_cursor_example :
    (result : Value) × (n : ℕ) × (handle_tools_list rpc_values worker second tools ≡ some result)
    × (member result "_nextCursor" ≡ some (number n))
unfolding String_discrete lookup has_permission
handle_tools_list-next_cursor_example =
    handle_tools_list-next_cursor rpc_values worker second tools (pos 1) (pos 1) "wipe" wipe_def
      refl refl refl refl

fetch-all_example :
    fetch rpc_values 3 (pos 0) (pos 1) tools
    ≡ some (tool_json rpc_values echo_def ∷ tool_json rpc_values wipe_def ∷ [])
fetch-all_example = fetch-all rpc_values (pos 1) tools (omega arith) (omega arith)
