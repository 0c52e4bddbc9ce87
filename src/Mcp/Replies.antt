-- ===== src/Mcp/Replies.antt =====
-- What is answered to a request.
use swarm_mcp.Prelude.{
  ℕ, String, ◌≡◌, refl, subst, ◌⊎◌, Bool-cases, inl, inr, false, not, Option, none, some, [], ◌∷◌,
  ◌==◌, ◌&&◌, arith, Option-cases, both_branches, guarded_branches,
}
use std.Option.{some-injective}
use swarm_mcp.Json.{◌>>=◌}
use swarm_mcp.Auth.Role.{has_permission, task_read, prompt_use}
use swarm_mcp.Mcp.Json.{ℤ, minus, Answer, returns, throws, RpcJson}
use swarm_mcp.Mcp.Request.{
  McpRequest, parse_request, check_auth, respond, conclude, make_error_response, error_object,
  coded, strip, content, contents,
}
use swarm_mcp.Mcp.Listing.{handle_tools_list, handle_resources_list, handle_prompts_list}
use swarm_mcp.Mcp.Protocol.{McpProtocol}
use swarm_mcp.Mcp.Calls.{handle_tools_call, handle_resources_read, handle_prompts_get}
use swarm_mcp.Mcp.Serve.{
  Method, initialize, notifications_initialized, ping, tools_list, tools_call, resources_list,
  resources_read, resources_subscribe, prompts_list, prompts_get, Served, method_of, has_id, serve,
  when_initialized, by_method, dispatch, handle_request, answer, or_throw, finish, refusal,
}

module _ (json : RpcJson) where
  open json use {lib, as_bool}
  open lib use {Value, null, text, object, as_text, value}

  -- An error under an id.
  abbrev pub error_json : Value → ℤ → String → Value
  error_json id code message = object (
      ("jsonrpc", text "2.0")
      ∷ ("id", id)
      ∷ ("error", object (("code", json.integer code) ∷ ("message", text message) ∷ []))
      ∷ [])

  -- The id of an answer: the request's, or null where it has none.
  abbrev pub IsIdOf : McpRequest Value → Value → Type 0
  IsIdOf req id = (req.id ≡ some id) ⊎ ((req.id ≡ none) × (id ≡ null))

  pub make_error_response_lem :
      (req : McpRequest Value) (code : ℤ) (message : String)
      → (id : Value) × IsIdOf req id
        × (make_error_response json req code message null ≡ error_json id code message)
  unfolding make_error_response error_object
  make_error_response_lem req code message = elim (Option-cases req.id) [
    | inl e ↦ (null, inr (e, refl), ground (arith, json.is_null-null))
    | inr (id, e) ↦ (id, inl e, ground (arith, json.is_null-null))
  ]

  -- An answer to a request: nothing, a result, or an error.
  pub data IsReply (req : McpRequest Value) (r : Value) : Type 0 where
    silent :
        (req.id ≡ none) ⊎ (method_of req.method ≡ notifications_initialized)
        → r ≡ object []
        → IsReply req r
    answered :
        (id result : Value)
        → req.id ≡ some id
        → r ≡ object (("jsonrpc", text "2.0") ∷ ("id", id) ∷ ("result", result) ∷ [])
        → IsReply req r
    refused :
        (id : Value) (code : ℤ) (message : String)
        → IsIdOf req id
        → r ≡ error_json id code message
        → IsReply req r

  error-IsReply :
      (req : McpRequest Value) (code : ℤ) (message : String)
      → IsReply req (make_error_response json req code message null)
  error-IsReply req code message =
      let (id, its, e) = make_error_response_lem req code message in refused id code message its e

  respond-IsReply :
      (req : McpRequest Value) (result : Value) → IsReply req (respond json req result)
  unfolding respond
  respond-IsReply req result = elim (Option-cases req.id) [
    | inl e ↦ silent (inl e) (rw e)
    | inr (id, e) ↦ answered id result e (rw e)
  ]

  conclude-IsReply :
      (req : McpRequest Value) (result : Value) (rest : Value → Option Value) (r : Value)
      → conclude json req result rest ≡ some r
      → IsReply req r
  unfolding conclude
  conclude-IsReply req result rest r e =
      elim (Option-cases (value as_bool result "_is_error" false)) [
        | inl bad ↦ absurd (ground arith)
        | inr (b, f) ↦ elim (Bool-cases b) [
          | inr plain ↦
              subst (IsReply req)
                (some-injective {a = respond json req result} {b = r} (ground arith))
                (respond-IsReply req result)
          | inl failed ↦ elim (Option-cases (coded json result)) [
            | inr ((code, message), g) ↦
                subst (IsReply req)
                  (some-injective {a = make_error_response json req code message null} {b = r}
                    (ground arith))
                  (error-IsReply req code message)
            | inl g ↦ elim (Option-cases (rest (strip json result))) [
              | inl bad ↦ absurd (ground arith)
              | inr (wrapped, h) ↦
                  subst (IsReply req)
                    (some-injective {a = respond json req wrapped} {b = r} (ground arith))
                    (respond-IsReply req wrapped)
            ]
          ]
        ]
      ]

  -- An answer that is returned is a reply.
  abbrev pub Fits : McpRequest Value → Answer Value → Type 0
  Fits req (throws what) = Unit
  Fits req (returns r) = IsReply req r

  module _ (W : Type 0) where
    or_throw-Fits :
        (req : McpRequest Value) (o : Option Value)
        → ((r : Value) → o ≡ some r → IsReply req r)
        → Fits req (or_throw json W req o)
    or_throw-Fits req none fits = tt
    or_throw-Fits req (some r) fits = fits r refl

    answer-Fits : (req : McpRequest Value) (o : Option Value) → Fits req (answer json W req o)
    answer-Fits req none = tt
    answer-Fits req (some r) = respond-IsReply req r

    finish-Fits :
        (req : McpRequest Value) (rest : Value → Option Value) (a : Answer Value)
        → Fits req (finish json W req rest a)
    finish-Fits req rest (throws what) = tt
    finish-Fits req rest (returns result) =
        or_throw-Fits req (conclude json req result rest) (conclude-IsReply req result rest)

    refusal-Fits :
        (req : McpRequest Value) (code : ℕ) (message : String)
        → Fits req (refusal json W req code message)
    refusal-Fits req code message = error-IsReply req (minus code) message

    abbrev FitsIn : McpRequest Value → Answer Value × W → Type 0
    FitsIn req served = Fits req served.0

    abbrev FitsServed : McpRequest Value → Served json W → Type 0
    FitsServed req served = Fits req served.0

    serve-Fits :
        (m : Method) (p : McpProtocol Value W) (req : McpRequest Value) (w : W)
        → Fits req (serve json W m p req w).0
    unfolding serve check_auth
    serve-Fits tools_list p req w =
        answer-Fits req (handle_tools_list json req.auth_role req.params p.tools)
    serve-Fits tools_call p req w =
        guarded_branches (FitsIn req) (has_permission req.auth_role task_read) _ _
          (refusal-Fits req 32003 _)
          (λ may.
            finish-Fits req (λ r. some (content json (json.dump r) false))
              (handle_tools_call json W p req w).0)
    serve-Fits resources_list p req w =
        answer-Fits req (handle_resources_list json req.auth_role req.params p.resources)
    serve-Fits resources_read p req w =
        guarded_branches (FitsIn req) (has_permission req.auth_role task_read) _ _
          (refusal-Fits req 32003 _)
          (λ may.
            finish-Fits req
              (λ r.
                value as_text req.params "uri" "" >>= λ uri. some (contents json uri (json.dump r)))
              (handle_resources_read json W p req w).0)
    serve-Fits resources_subscribe p req w =
        guarded_branches (FitsIn req) (has_permission req.auth_role task_read) _ _
          (refusal-Fits req 32003 _) (λ may. answer-Fits req (some _))
    serve-Fits prompts_list p req w =
        guarded_branches (FitsIn req) (has_permission req.auth_role prompt_use) _ _
          (refusal-Fits req 32003 _)
          (λ may. answer-Fits req (handle_prompts_list json req.params p.prompts))
    serve-Fits prompts_get p req w =
        guarded_branches (FitsIn req) (has_permission req.auth_role prompt_use) _ _
          (refusal-Fits req 32003 _)
          (λ may.
            finish-Fits req (λ r. some (object (("messages", r) ∷ [])))
              (handle_prompts_get json W p req w).0)
    serve-Fits m p req w = refusal-Fits req 32601 _

    by_method-Fits :
        (m : Method) (p : McpProtocol Value W) (req : McpRequest Value) (w : W)
        → method_of req.method ≡ m
        → Fits req (by_method json W m p req w).0
    unfolding by_method when_initialized
    by_method-Fits initialize p req w e = answer-Fits req (some _)
    by_method-Fits notifications_initialized p req w e =
        guarded_branches (FitsServed req) p.initialized _ _ (refusal-Fits req 32002 _)
          (λ on. silent (inr e) refl)
    by_method-Fits ping p req w e =
        guarded_branches (FitsServed req) p.initialized _ _ (refusal-Fits req 32002 _)
          (λ on. answer-Fits req (some _))
    by_method-Fits m p req w e =
        guarded_branches (FitsServed req) p.initialized _ _ (refusal-Fits req 32002 _)
          (λ on. serve-Fits m p req w)

    dispatch-Fits :
        (p : McpProtocol Value W) (req : McpRequest Value) (w : W)
        → Fits req (dispatch json W p req w).0
    unfolding dispatch
    dispatch-Fits p req w =
        both_branches (FitsServed req) (not (req.jsonrpc == "2.0")) _ _ (refusal-Fits req 32600 _) (
          both_branches (FitsServed req) (req.method == "" && has_id req) _ _
            (refusal-Fits req 32600 _) (by_method-Fits (method_of req.method) p req w refl))

    -- Whatever is answered to a request, it is the empty object, to a request without an id or to
    -- `notifications/initialized`; or a result under the request's id; or an error, with a code and a
    -- message, under the id, which is null where the request has none.
    pub handle_request-IsReply :
        (p : McpProtocol Value W) (request : Value) (w : W) (r : Value)
        → (handle_request json W p request w).0 ≡ returns r
        → (req : McpRequest Value) × (parse_request json request ≡ some req) × IsReply req r
    unfolding handle_request
    handle_request-IsReply p request w r e = elim (Option-cases (parse_request json request)) [
      | inl bad ↦ absurd (ground arith)
      | inr (req, f) ↦
          let same : (dispatch json W p req w).0 ≡ returns r = ground arith in
          (req, f, subst (Fits req) same (dispatch-Fits p req w))
    ]
