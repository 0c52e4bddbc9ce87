-- ===== src/Mcp/Serve.antt =====
-- `handle_request` and `handle_raw`: the order of the tests, and what is answered after each.
use Prim.Native.String.{◌++◌}
use swarm_mcp.Prelude.{
  ℕ, String, Bool, true, false, not, ◌&&◌, Option, none, some, [], ◌∷◌, ◌==◌, if◌then◌else◌,
}
use swarm_mcp.Auth.Role.{role_to_str, task_read, prompt_use}
use swarm_mcp.Json.{◌>>=◌}
use swarm_mcp.Mcp.Json.{minus, Answer, returns, throws, RpcJson}
use swarm_mcp.Mcp.Request.{
  McpRequest, check_auth, parse_request, make_error_response, respond, conclude, content, contents,
}
use swarm_mcp.Mcp.Listing.{handle_tools_list, handle_resources_list, handle_prompts_list}
use swarm_mcp.Mcp.Protocol.{McpProtocol, ServerInfo, ServerCapabilities}
use swarm_mcp.Mcp.Calls.{handle_tools_call, handle_resources_read, handle_prompts_get}

-- The method that a request names.
pub data Method : Type 0 where
  initialize notifications_initialized ping tools_list tools_call : Method
  resources_list resources_read resources_subscribe prompts_list prompts_get unknown : Method

-- The comparisons of `req.method`, in order.
unfoldable pub method_of : String → Method
method_of m =
    if m == "initialize"
    then initialize
    else if m == "notifications/initialized"
    then notifications_initialized
    else if m == "ping"
    then ping
    else if m == "tools/list"
    then tools_list
    else if m == "tools/call"
    then tools_call
    else if m == "resources/list"
    then resources_list
    else if m == "resources/read"
    then resources_read
    else if m == "resources/subscribe"
    then resources_subscribe
    else if m == "prompts/list"
    then prompts_list
    else if m == "prompts/get"
    then prompts_get
    else unknown

unfoldable pub has_id : {J : Type 0} → McpRequest J → Bool
has_id req = elim req.id [ none ↦ false | some id ↦ true ]

module _ (json : RpcJson) where
  open json use {lib, bool, dump, parse, type_error, integer}
  open lib use {Value, null, text, object, set, as_text, value}

  -- `capabilities` starts as null, which stays if the server has none.
  abbrev add_capability : Bool → String → (fields : Value) → Value → Value
  add_capability enabled key fields capabilities =
      if enabled
      then (if lib.is_object capabilities
          then set capabilities key fields
          else set (object []) key fields)
      else capabilities

  -- `{}` stands for null in `capabilities["logging"] = {}`.
  unfoldable pub capabilities_json : ServerCapabilities → Value
  capabilities_json caps =
      let yes = bool true in
      add_capability caps.logging "logging" null (
        add_capability caps.prompts "prompts" (object (("listChanged", yes) ∷ [])) (
          add_capability caps.resources "resources"
            (object (("subscribe", yes) ∷ ("listChanged", yes) ∷ []))
            (add_capability caps.tools "tools" (object (("listChanged", yes) ∷ [])) null)))

  unfoldable pub initialize_result : ServerInfo → ServerCapabilities → Value
  unfolding capabilities_json
  initialize_result info caps = object (
      ("protocolVersion", text "2025-03-26")
      ∷ ("capabilities", capabilities_json caps)
      ∷ ("serverInfo", object (("name", text info.name) ∷ ("version", text info.version) ∷ []))
      ∷ [])

  module _ (W : Type 0) where
    -- The protocol and what the handlers work on.
    abbrev pub Served : Type 0
    Served = Answer Value × (McpProtocol Value W × W)

    unfoldable pub handle_initialize : McpProtocol Value W → Value × McpProtocol Value W
    unfolding initialize_result
    handle_initialize p = (initialize_result p.info p.caps, record p { initialized = true })

    abbrev pub or_throw : McpRequest Value → Option Value → Answer Value
    or_throw req none = throws (type_error req.params)
    or_throw req (some response) = returns response

    -- The answer with a result that may have thrown.
    abbrev pub answer : McpRequest Value → Option Value → Answer Value
    answer req result = or_throw req (result >>= λ r. some (respond json req r))

    abbrev pub finish :
        McpRequest Value → (rest : Value → Option Value) → Answer Value → Answer Value
    finish req rest (throws what) = throws what
    finish req rest (returns result) = or_throw req (conclude json req result rest)

    abbrev pub refusal : McpRequest Value → (code : ℕ) → String → Answer Value
    refusal req code message = returns (make_error_response json req (minus code) message null)

    -- The requests that come after `ping` in the order of the tests.
    unfoldable pub serve : Method → McpProtocol Value W → McpRequest Value → W → Answer Value × W
    unfolding check_auth conclude respond make_error_response content contents
    serve tools_list p req w =
        (answer req (handle_tools_list json req.auth_role req.params p.tools), w)
    serve tools_call p req w =
        if not (check_auth req task_read)
        then (
          refusal req 32003 (
              "Forbidden: role '" ++ (role_to_str req.auth_role ++ "' insufficient for this tool")),
          w,
        )
        else let (result, w') = handle_tools_call json W p req w in
          (finish req (λ r. some (content json (dump r) false)) result, w')
    serve resources_list p req w =
        (answer req (handle_resources_list json req.auth_role req.params p.resources), w)
    serve resources_read p req w =
        if not (check_auth req task_read)
        then (refusal req 32003 "Forbidden: insufficient role to read resources", w)
        else let (result, w') = handle_resources_read json W p req w in
          (
            finish req
                (λ r.
                  value as_text req.params "uri" "" >>= λ uri. some (contents json uri (dump r)))
                result,
            w',
          )
    serve resources_subscribe p req w =
        if not (check_auth req task_read)
        then (refusal req 32003 "Forbidden: insufficient role to subscribe to resources", w)
        else (answer req (some (object (("subscribed", bool true) ∷ []))), w)
    serve prompts_list p req w =
        if not (check_auth req prompt_use)
        then (refusal req 32003 "Forbidden: insufficient role to list prompts", w)
        else (answer req (handle_prompts_list json req.params p.prompts), w)
    serve prompts_get p req w =
        if not (check_auth req prompt_use)
        then (refusal req 32003 "Forbidden: insufficient role to get prompts", w)
        else let (result, w') = handle_prompts_get json W p req w in
          (finish req (λ r. some (object (("messages", r) ∷ []))) result, w')
    serve m p req w = (refusal req 32601 ("Method not found: " ++ req.method), w)

    -- The requests of a server that is initialized.
    unfoldable pub when_initialized :
        Method → McpProtocol Value W → McpRequest Value → W → Answer Value × W
    unfolding serve respond
    when_initialized notifications_initialized p req w = (returns (object []), w)
    when_initialized ping p req w = (answer req (some (object [])), w)
    when_initialized m p req w = serve m p req w

    unfoldable pub by_method : Method → McpProtocol Value W → McpRequest Value → W → Served
    unfolding when_initialized handle_initialize respond make_error_response
    by_method initialize p req w =
        let (result, p') = handle_initialize p in (answer req (some result), (p', w))
    by_method m p req w =
        if not p.initialized
        then (refusal req 32002 "Server not initialized", (p, w))
        else let (response, w') = when_initialized m p req w in (response, (p, w'))

    unfoldable pub dispatch : McpProtocol Value W → McpRequest Value → W → Served
    unfolding by_method make_error_response
    dispatch p req w =
        if not (req.jsonrpc == "2.0")
        then (refusal req 32600 "Invalid Request: jsonrpc must be \"2.0\"", (p, w))
        else if req.method == "" && has_id req
        then (refusal req 32600 "Invalid Request: missing method", (p, w))
        else by_method (method_of req.method) p req w

    unfoldable pub handle_request : McpProtocol Value W → (request : Value) → W → Served
    unfolding parse_request dispatch
    handle_request p request w = elim (parse_request json request) [
      | none ↦ (throws (type_error request), (p, w))
      | some req ↦ dispatch p req w
    ]

    unfoldable pub parse_error_json : String → Value
    parse_error_json what = object (
        ("jsonrpc", text "2.0")
        ∷ ("id", null)
        ∷ (
          "error",
          object (
              ("code", integer (minus 32700))
              ∷ ("message", text "Parse error")
              ∷ ("data", text what)
              ∷ []),
        )
        ∷ [])

    abbrev pub dumped : Answer Value → Answer String
    dumped (throws what) = throws what
    dumped (returns response) = returns (dump response)

    unfoldable pub handle_raw :
        McpProtocol Value W → (raw_request : String) → W → Answer String × (McpProtocol Value W × W)
    unfolding handle_request parse_error_json
    handle_raw p raw_request w = elim (parse raw_request) [
      | throws what ↦ (returns (dump (parse_error_json what)), (p, w))
      | returns request ↦
          let (response, after) = handle_request p request w in (dumped response, after)
    ]
