-- ===== src/Http/Post.antt =====
-- `handle_post`.
use swarm_mcp.Prelude.{
  ℕ, String, Bool, true, false, not, ◌&&◌, Option, none, some, List, [], ◌∷◌, ◌==◌, ltb, length,
  if◌then◌else◌,
}
use Prim.Native.String.{◌++◌}
use swarm_mcp.Auth.Role.{role_to_str}
use swarm_mcp.Auth.Token.{AuthToken}
use swarm_mcp.Mcp.Json.{minus, Answer, returns, throws, RpcJson}
use swarm_mcp.Mcp.Request.{assign}
use swarm_mcp.Mcp.Protocol.{McpProtocol}
use swarm_mcp.Mcp.Serve.{handle_request, handle_raw}
use swarm_mcp.Http.RateLimiter.{allow}
use swarm_mcp.Http.Transport.{
  HttpRequest, HttpResponse, Reading, Transport, apply_cors, reply, too_many, authenticate,
}

unfoldable pub max_batch_size : ℕ
max_batch_size = 100

-- The answers of a request and of those behind it, which are not reached if it throws.
abbrev pub both : {A : Type 0} → Answer A → Answer (List A) → Answer (List A)
both (throws what) more = throws what
both (returns a) (throws what) = throws what
both (returns a) (returns as') = returns (a ∷ as')

abbrev pub after : {A S : Type 0} → Answer A → S → S → S
after (throws what) s s' = s
after (returns a) s s' = s'

module _ (json : RpcJson) where
  open json use {lib, integer, array, items, merge_patch, dump, parse, type_error}
  open lib use {Value, null, text, object, set, is_object, is_null, member}

  unfoldable pub auth_context : AuthToken → Value
  auth_context token = object (
      (
        "_auth",
        object (
            ("agent_id", text token.agent_id)
            ∷ ("role", text (role_to_str token.role))
            ∷ ("swarm_id", text token.swarm_id)
            ∷ []),
      )
      ∷ [])

  -- The identity goes into the parameters of a request; `none` where the assignment throws.
  unfoldable pub inject : AuthToken → Value → Option Value
  unfolding auth_context assign
  inject token item = elim (member item "params") [
    | none ↦ assign json item "params" (auth_context token)
    | some params ↦
        if is_object params
        then some (set item "params" (merge_patch params (auth_context token)))
        else assign json item "params" (auth_context token)
  ]

  abbrev pub lacks_id : Value → Bool
  lacks_id item = elim (member item "id") [ none ↦ true | some id ↦ is_null id ]

  unfoldable pub all_lack_id : List Value → Bool
  all_lack_id [] = true
  all_lack_id (item ∷ rest) = lacks_id item && all_lack_id rest

  unfoldable pub post_error : String → (code : ℕ) → String
  post_error message code = dump (
      object (
        ("jsonrpc", text "2.0")
        ∷ ("id", null)
        ∷ ("error", object (("code", integer (minus code)) ∷ ("message", text message) ∷ []))
        ∷ []))

  module _ (W : Type 0) where
    -- The loop over a batch. It ends where an item makes it throw.
    unfoldable pub serve_batch :
        AuthToken
        → List Value
        → McpProtocol Value W × W
        → Answer (List Value) × (McpProtocol Value W × W)
    unfolding inject
    serve_batch token [] s = (returns [], s)
    serve_batch token (item ∷ rest) (p, w) = elim (inject token item) [
      | none ↦ (throws (type_error item), (p, w))
      | some request ↦
          let (answer, s) = handle_request json W p request w in
          let (more, s') = serve_batch token rest s in (both answer more, after answer s s')
    ]

    -- The answer to a request body: 202 without a body where no request has an id.
    abbrev pub respond_to : HttpResponse → (is_notification : Bool) → String → HttpResponse
    respond_to res is_notification response =
        if is_notification then reply res 202 "" else record res { content = response }

    abbrev pub answered : {A : Type 0} → (A → HttpResponse) → Answer A → Answer HttpResponse
    answered f (throws what) = throws what
    answered f (returns a) = returns (f a)

    unfoldable pub post_single :
        AuthToken
        → HttpResponse
        → (body : Value) → McpProtocol Value W × W
        → Answer HttpResponse × (McpProtocol Value W × W)
    unfolding inject
    post_single token res body (p, w) = elim (inject token body) [
      | none ↦ (throws (type_error body), (p, w))
      | some request ↦
          let (answer, s) = handle_raw json W p (dump request) w in
          (answered (respond_to res (lacks_id request)) answer, s)
    ]

    unfoldable pub post_batch :
        AuthToken
        → HttpResponse
        → (batch : List Value) → McpProtocol Value W × W
        → Answer HttpResponse × (McpProtocol Value W × W)
    unfolding serve_batch all_lack_id post_error max_batch_size
    post_batch token res batch s =
        if ltb max_batch_size (length batch)
        then (
          returns (
              reply res 400
                (post_error "Batch size limit exceeded: maximum 100 requests per batch" 32600)),
          s,
        )
        else let (answer, s') = serve_batch token batch s in
          (
            answered (λ responses. respond_to res (all_lack_id batch) (dump (array responses)))
                answer,
            s',
          )

    -- The part of `handle_post` that reads the body.
    unfoldable pub post_body :
        AuthToken
        → HttpResponse
        → (body : String) → McpProtocol Value W × W
        → Answer HttpResponse × (McpProtocol Value W × W)
    unfolding post_single post_batch post_error
    post_body token res body s = elim (parse body) [
      | throws what ↦
          (returns (respond_to res false (post_error ("Parse error: " ++ what) 32700)), s)
      | returns value ↦ elim (items value) [
        | some batch ↦ post_batch token res batch s
        | none ↦ post_single token res value s
      ]
    ]

    module _ (hmac : String → String → String) where
      unfoldable pub handle_post :
          Transport Value W → Reading → HttpRequest → Answer HttpResponse × Transport Value W
      unfolding authenticate post_body too_many apply_cors allow
      handle_post t now req =
          let res = apply_cors t.config in
          let (allowed, limiter) = allow t.limiter now.steady req.remote_addr in
          let t₁ = record t { limiter = limiter } in
          if not allowed
          then (returns (too_many res), t₁)
          else elim (authenticate hmac t.config t.auth now.system req) [
            | none ↦ (
              returns (
                  reply res 401
                    "{\"jsonrpc\":\"2.0\",\"error\":{\"code\":-32001,\"message\":\"Authentication required\"}}"),
              t₁,
            )
            | some token ↦
                if req.body == ""
                then (
                  returns (
                      reply res 400
                        "{\"jsonrpc\":\"2.0\",\"error\":{\"code\":-32700,\"message\":\"Empty body\"}}"),
                  t₁,
                )
                else let (answer, (p, w)) = post_body token res req.body (t.protocol, t.world) in
                  (answer, record t₁ { protocol = p; world = w })
          ]
