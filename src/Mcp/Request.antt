-- ===== src/Mcp/Request.antt =====
-- A request and what is answered: `parse_request`, `make_error_response`, and the parts of the
-- answers that `handle_request` writes out for each method.
use swarm_mcp.Prelude.{String, Bool, true, false, Option, none, some, [], ◌∷◌, if◌then◌else◌}
use swarm_mcp.Json.{◌>>=◌}
use swarm_mcp.Auth.Role.{Role, observer, role_from_str, Permission, has_permission}
use swarm_mcp.Mcp.Json.{ℤ, RpcJson}

pub record McpRequest (J : Type 0) : Type 0 where
  pub jsonrpc : String
  pub id : Option J
  pub method : String
  pub params : J
  pub auth_agent_id : String
  pub auth_role : Role
  pub auth_swarm_id : String

unfoldable pub check_auth : {J : Type 0} → McpRequest J → Permission → Bool
check_auth req required = has_permission req.auth_role required

module _ (json : RpcJson) where
  open json use {lib, bool, integer, array, as_bool, as_integer, erase, dump}
  open lib use {Value, null, text, object, set, is_object, is_null, member, as_text, value}

  -- `req["id"]`, if it is there and not null.
  abbrev pub request_id : Value → Option Value
  request_id request = elim (member request "id") [
    | none ↦ none
    | some id ↦ if is_null id then none else some id
  ]

  -- The identity that the transport has put into the parameters.
  unfoldable pub with_auth : McpRequest Value → Option (McpRequest Value)
  with_auth req = elim (member req.params "_auth") [
    | none ↦ some req
    | some auth ↦ value as_text auth "agent_id" "" >>= λ agent_id.
        value as_text auth "role" "observer" >>= λ role.
        value as_text auth "swarm_id" "" >>= λ swarm_id. some (record req {
          auth_agent_id = agent_id;
          auth_role = role_from_str role;
          auth_swarm_id = swarm_id;
        })
  ]

  -- It throws where a member that is there has another type than the default.
  unfoldable pub parse_request : Value → Option (McpRequest Value)
  unfolding with_auth
  parse_request request = value as_text request "jsonrpc" "2.0" >>= λ jsonrpc.
      value as_text request "method" "" >>= λ method.
      value some request "params" (object []) >>= λ params. with_auth (record {
        jsonrpc = jsonrpc;
        id = request_id request;
        method = method;
        params = params;
        auth_agent_id = "";
        auth_role = observer;
        auth_swarm_id = "";
      })

  -- j[key] = value: it makes an object of null, and throws where `j` is something else.
  unfoldable pub assign : Value → String → Value → Option Value
  assign j key v =
      if is_object j
      then some (set j key v)
      else if is_null j
      then some (set (object []) key v)
      else none

  -- *req.id, or null
  abbrev pub id_or_null : McpRequest Value → Value
  id_or_null req = elim req.id [ none ↦ null | some id ↦ id ]

  unfoldable pub error_object : ℤ → String → (extra : Value) → Value
  error_object code message extra =
      let err = object (("code", integer code) ∷ ("message", text message) ∷ []) in
      if is_null extra then err else set err "data" extra

  unfoldable pub make_error_response : McpRequest Value → ℤ → String → (extra : Value) → Value
  unfolding error_object
  make_error_response req code message extra = object (
      ("jsonrpc", text "2.0")
      ∷ ("id", id_or_null req)
      ∷ ("error", error_object code message extra)
      ∷ [])

  -- What is answered where the method has a result: nothing to a notification.
  unfoldable pub respond : McpRequest Value → (result : Value) → Value
  respond req result = elim req.id [
    | none ↦ object []
    | some id ↦ object (("jsonrpc", text "2.0") ∷ ("id", id) ∷ ("result", result) ∷ [])
  ]

  -- {{"_is_error", true}, {"code", code}, {"message", message}}
  unfoldable pub error_result : ℤ → String → Value
  error_result code message =
      object (("_is_error", bool true) ∷ ("code", integer code) ∷ ("message", text message) ∷ [])

  abbrev pub strip : Value → Value
  strip result = erase (erase (erase result "_is_error") "code") "message"

  -- The code and the message of an error, if they have the right types.
  unfoldable pub coded : Value → Option (ℤ × String)
  coded result = member result "code" >>= as_integer >>= λ code.
      member result "message" >>= as_text >>= λ message. some (code, message)

  -- How `handle_request` answers with the result of a handler. `rest` wraps what is marked as an error
  -- and has no code or message.
  unfoldable pub conclude : McpRequest Value → Value → (rest : Value → Option Value) → Option Value
  unfolding coded make_error_response respond
  conclude req result rest = value as_bool result "_is_error" false >>= λ is_error.
      if is_error
      then elim (coded result) [
        | some (code, message) ↦ some (make_error_response req code message null)
        | none ↦ rest (strip result) >>= λ wrapped. some (respond req wrapped)
      ]
      else some (respond req result)

  -- {{"content", [{{"type", "text"}, {"text", …}}]}, {"isError", …}}
  unfoldable pub content : String → (is_error : Bool) → Value
  content s is_error = object (
      ("content", array (object (("type", text "text") ∷ ("text", text s) ∷ []) ∷ []))
      ∷ ("isError", bool is_error)
      ∷ [])

  -- {{"contents", [{{"uri", uri}, {"mimeType", …}, {"text", …}}]}}
  unfoldable pub contents : String → String → Value
  contents uri s = object (
      (
        "contents",
        array (
            object
              (("uri", text uri) ∷ ("mimeType", text "application/json") ∷ ("text", text s) ∷ [])
            ∷ []),
      )
      ∷ [])
