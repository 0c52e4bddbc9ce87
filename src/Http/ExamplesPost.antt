-- ===== src/Http/ExamplesPost.antt =====
-- The theorems on requests by POST at concrete inputs, and tests of the definitions.
use swarm_mcp.Prelude.{
  ◌≤◌, length, String, ◌≡◌, ◌⊎◌, refl, true, false, some, List, [], ◌∷◌, none, String_discrete,
  if◌then◌else◌, ◌==◌,
}
use swarm_mcp.Dict.{lookup, insert}
use swarm_mcp.Auth.Role.{worker, task_create, role_to_str, role_from_str, has_permission}
use swarm_mcp.Auth.Token.{AuthToken}
use swarm_mcp.Json.Values.{Value, text, number, nil, field, of_fields, member}
use swarm_mcp.Mcp.Json.{returns, RpcJson}
use swarm_mcp.Mcp.Values.{rpc_values, merge_patch}
use swarm_mcp.Mcp.Request.{McpRequest, parse_request, with_auth, assign, check_auth}
use swarm_mcp.Mcp.Listing.{McpToolDef}
use swarm_mcp.Mcp.Protocol.{Handler, protocol, register_tool}
use swarm_mcp.Mcp.Calls.{tool_call, handle_tools_call, find_handler, lacks}
use swarm_mcp.Mcp.Serve.{
  handle_request, handle_raw, handle_initialize, dispatch, has_id, method_of, by_method,
  when_initialized, serve,
}
use swarm_mcp.Mcp.History.{Call, tool, request, run, run-protocol-Paired}
use swarm_mcp.Http.RateLimiter.{rate_limiter, allow, bucket, evict}
use swarm_mcp.Http.Transport.{HttpRequest, Reading, Transport, anonymous, authenticate}
use swarm_mcp.Http.Post.{auth_context, inject, post_single, post_body, handle_post}
use swarm_mcp.Http.Identity.{IsOf, identity, tool_call-IsOf}
use swarm_mcp.Http.Guarded.{Through, Reparsed, handle_post-Through}
use swarm_mcp.Http.Sse.{
  SseClient, add_client, broadcast_loop, sink, take_message, pop_front, max_sse_queue_entries,
}
use swarm_mcp.Http.Queues.{comes, sends, takes, run-bounded, Call as StreamCall, run as run_streams}

abbrev L : Type 0
L = List String

abbrev writes : Handler Value L
writes args w = (returns (text "done"), "echo" ∷ w)

abbrev echo_def : McpToolDef Value
echo_def = record {
  name = "echo";
  description = "says it";
  input_schema = nil;
  required_permission = task_create;
}

abbrev token : AuthToken
token = record {
  token_id = "u1";
  agent_id = "ann";
  role = worker;
  swarm_id = "s";
  issued_at = 0;
  expires_at = 60000000000;
  token_string = "t";
}

-- Who sends it says that she is a coordinator.
abbrev params : Value
params = of_fields (
    ("name", text "echo")
    ∷ ("_auth", of_fields (("agent_id", text "eve") ∷ ("role", text "coordinator") ∷ []))
    ∷ [])

abbrev item : Value
item = of_fields (("id", number 7) ∷ ("method", text "tools/call") ∷ ("params", params) ∷ [])

abbrev posted_as : AuthToken → Value
posted_as t = field "params" (merge_patch params (auth_context rpc_values t)) item

injected : inject rpc_values token item ≡ some (posted_as token)
unfolding inject String_discrete
injected = refl

abbrev req : McpRequest Value
req = record {
  jsonrpc = "2.0";
  id = some (number 7);
  method = "tools/call";
  params = merge_patch params (auth_context rpc_values token);
  auth_agent_id = "ann";
  auth_role = worker;
  auth_swarm_id = "s";
}

parsed : parse_request rpc_values (posted_as token) ≡ some req
unfolding parse_request with_auth role_from_str role_to_str auth_context String_discrete
parsed = refl

abbrev args : Value
args =
    field "_auth"
      (merge_patch (of_fields (("agent_id", text "eve") ∷ ("role", text "coordinator") ∷ []))
        (of_fields (identity rpc_values token)))
      nil

called : tool_call rpc_values L req.params ≡ some ("echo", args)
unfolding tool_call assign auth_context String_discrete
called = refl

tool_call-IsOf_example :
    (auth : Value) × (member args "_auth" ≡ some auth) × IsOf rpc_values token auth
tool_call-IsOf_example =
    tool_call-IsOf rpc_values L token item (posted_as token) req "echo" args injected parsed called

-- A transport that asks for no token, and whose library parses one text to the request above, and any
-- other to what the transport makes of it.
abbrev now : Reading
now = record { steady = 9; system = 5; uuid = "u" }

abbrev anon : AuthToken
anon = anonymous 5

abbrev one_text : RpcJson
one_text = record rpc_values {
  parse = λ s. if s == "body" then returns item else returns (posted_as anon);
}

abbrev calls : List (Call one_text L)
calls =
    tool echo_def writes
    ∷ request (of_fields (("id", number 1) ∷ ("method", text "initialize") ∷ []))
    ∷ []

abbrev before : Transport Value L
before = record {
  config = record { cors_origin = ""; require_auth = false };
  limiter = rate_limiter 60;
  auth = record { swarm_secret = "s3cret"; active_tokens = []; revoked_token_ids = [] };
  protocol =
      (run one_text L calls (
        protocol (record { name = "swarm-mcp"; version = "1.0.0" })
            (record { tools = true; resources = true; prompts = true; logging = true }),
        [],
      )).0;
  world = [];
  sse = [];
  notification_handler = none;
}

abbrev asks : HttpRequest
asks = record {
  remote_addr = "::1";
  authorization = "";
  accept = "";
  session_id = "";
  body = "body";
}

abbrev no_hmac : String → String → String
no_hmac payload secret = ""

echo_ran : (handle_post one_text L no_hmac before now asks).1.world ≡ "echo" ∷ []
unfolding handle_post authenticate anonymous rate_limiter allow bucket evict post_body post_single
    inject auth_context handle_raw handle_request parse_request with_auth role_from_str role_to_str
    dispatch has_id method_of by_method handle_initialize when_initialized serve check_auth
    has_permission handle_tools_call tool_call assign find_handler lacks lookup insert register_tool
    protocol String_discrete
echo_ran = refl

known : authenticate no_hmac before.config before.auth now.system asks ≡ some anon
unfolding authenticate
known = refl

put_in : inject one_text anon item ≡ some (posted_as anon)
unfolding inject String_discrete
put_in = refl

printed : one_text.parse (one_text.dump (posted_as anon)) ≡ returns (posted_as anon)
unfolding String_discrete
printed = refl

read : one_text.parse "body" ≡ returns item
unfolding String_discrete
read = refl

again :
    (t : AuthToken) (value : Value)
    → authenticate no_hmac before.config before.auth now.system asks ≡ some t
    → one_text.parse asks.body ≡ returns value
    → Reparsed one_text L t value
again t value e f r i = cc (e, f, i, known, put_in, printed, read)

handle_post-Through_example :
    ((handle_post one_text L no_hmac before now asks).1.world ≡ [])
    ⊎ ((t : AuthToken) × ((allow before.limiter 9 "::1").0 ≡ true)
        × (authenticate no_hmac before.config before.auth 5 asks ≡ some t)
        × Through one_text L before.protocol t
            (handle_post one_text L no_hmac before now asks).1.world
            [])
handle_post-Through_example =
    handle_post-Through one_text L no_hmac before now asks
      (run-protocol-Paired one_text L (record { name = "swarm-mcp"; version = "1.0.0" })
        (record { tools = true; resources = true; prompts = true; logging = true }) calls [])
      again

abbrev client : SseClient
client = record { queue = "a" ∷ "b" ∷ []; disconnected = false }

abbrev streams : List StreamCall
streams = comes "c" ∷ sends "x" ∷ sends "a" ∷ takes "c" ∷ sends "b" ∷ []

there : lookup "c" (run_streams streams []) ≡ some client
unfolding add_client broadcast_loop sink take_message pop_front max_sse_queue_entries lookup insert
    String_discrete
there = refl

run-bounded_example : length client.queue ≤ 1024
run-bounded_example = run-bounded streams "c" client there
