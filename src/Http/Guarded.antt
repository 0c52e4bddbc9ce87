-- ===== src/Http/Guarded.antt =====
-- What a POST may do to what the handlers work on.
use swarm_mcp.Prelude.{
  String, ◌≡◌, refl, sym, subst, ◌∙◌, Bool, Bool-cases, inl, inr, true, some, List, [], ◌∷◌, arith,
  Option-cases, ◌⊎◌, ◌==◌, ltb, length,
}
use swarm_mcp.Auth.Token.{AuthToken}
use swarm_mcp.Mcp.Json.{Answer, returns, throws, RpcJson}
use swarm_mcp.Mcp.Request.{McpRequest}
use swarm_mcp.Mcp.Protocol.{McpProtocol}
use swarm_mcp.Mcp.Serve.{handle_request, handle_raw}
use swarm_mcp.Mcp.Access.{Ran, Paired, handle_request-Ran}
use swarm_mcp.Mcp.History.{Started, handle_request-Started}
use swarm_mcp.Http.RateLimiter.{allow}
use swarm_mcp.Http.Transport.{
  HttpRequest, HttpResponse, Reading, Transport, apply_cors, authenticate,
}
use swarm_mcp.Http.Post.{
  inject, after, serve_batch, post_single, post_batch, post_body, handle_post, max_batch_size,
}
use swarm_mcp.Http.Identity.{inject_identity}

Answer-cases :
    {A : Type 0} (a : Answer A)
    → ((what : String) × (a ≡ throws what)) ⊎ ((r : A) × (a ≡ returns r))
Answer-cases (throws what) = inl (what, refl)
Answer-cases (returns r) = inr (r, refl)

module _ (json : RpcJson) (W : Type 0) where
  open json use {lib, items, dump, parse}
  open lib use {Value}

  -- From `w` to `w'` by requests of the token's agent, each of which runs one handler that its role may
  -- run, of the tables of `p`, which is initialized or not.
  pub data Through (p : McpProtocol Value W) (token : AuthToken) (w' : W) : W → Type 0 where
    done : Through p token w' w'
    next :
        (req : McpRequest Value) (w v : W)
        → req.auth_agent_id ≡ token.agent_id
        → req.auth_role ≡ token.role
        → req.auth_swarm_id ≡ token.swarm_id
        → (on : Bool) → Ran json W (record p { initialized = on }) req w v
        → Through p token w' v
        → Through p token w' w

  through : {p : McpProtocol Value W} {token : AuthToken} (w v : W) → w ≡ v → Through p token v w
  through {p} {token} w v e = subst (λ x. Through p token x w) e done

  -- The tables are those of `p`.
  abbrev pub SameTables : McpProtocol Value W → McpProtocol Value W → Type 0
  SameTables p q = (on : Bool) × (q ≡ record p { initialized = on })

  Started-SameTables :
      (p q r : McpProtocol Value W) → SameTables p q → Started json W q r → SameTables p r
  Started-SameTables p q r (on, e) (inl same) = (on, same ∙ e)
  Started-SameTables p q r (on, e) (inr started) =
      (true, started ∙ (λ i. record (e i) { initialized = true }))

  Paired-SameTables :
      (p q : McpProtocol Value W) → SameTables p q → Paired json W p → Paired json W q
  Paired-SameTables p q (on, e) paired =
      subst (Paired json W) (sym e) (record { tools = paired.tools; resources = paired.resources })

  -- One request.
  request-Through :
      (p q : McpProtocol Value W) (token : AuthToken) (item request : Value) (w w' : W)
      → Paired json W p
      → SameTables p q
      → inject json token item ≡ some request
      → Through p token w' (handle_request json W q request w).1.1
      → Through p token w' w
  request-Through p q token item request w w' paired (on, e) i after =
      elim (handle_request-Ran json W q request w (Paired-SameTables p q (on, e) paired)) [
        | inl same ↦ subst (Through p token w') same after
        | inr (req, parsed, up, ran) ↦
            let (agent, role, swarm) = inject_identity json token item request req i parsed in
            let v = (handle_request json W q request w).1.1 in
            next req w v agent role swarm on (subst (λ x. Ran json W x req w v) e ran) after
      ]

  after_answer :
      (p : McpProtocol Value W) (token : AuthToken) (answer : Answer Value)
      (s s' : McpProtocol Value W × W) (end : W)
      → (after answer s s').1 ≡ end
      → Through p token s'.1 s.1
      → Through p token end s.1
  after_answer p token (throws what) s s' end e more = through s.1 end e
  after_answer p token (returns r) s s' end e more = subst (λ x. Through p token x s.1) e more

  serve_batch-Through :
      (p q : McpProtocol Value W) (token : AuthToken) (batch : List Value) (w : W)
      → Paired json W p
      → SameTables p q
      → Through p token (serve_batch json W token batch (q, w)).1.1 w
  unfolding serve_batch
  serve_batch-Through p q token [] w paired same = done
  serve_batch-Through p q token (item ∷ rest) w paired same =
      elim (Option-cases (inject json token item)) [
        | inl bad ↦ through w _ (ground arith)
        | inr (request, i) ↦
            let s = (handle_request json W q request w).1 in
            let answer = (handle_request json W q request w).0 in
            let same' =
              Started-SameTables p q s.0 same (handle_request-Started json W q request w) in
            let more = serve_batch-Through p s.0 token rest s.1 paired same' in
            let end = (serve_batch json W token (item ∷ rest) (q, w)).1.1 in
            request-Through p q token item request w end paired same i (
              after_answer p token answer s (serve_batch json W token rest s).1 end (ground arith)
                more)
      ]

  -- What is printed of a request that the transport hands on is parsed to it again.
  abbrev pub Reparsed : AuthToken → Value → Type 0
  Reparsed token body =
      (request : Value)
      → inject json token body ≡ some request
      → parse (dump request) ≡ returns request

  post_single-Through :
      (p q : McpProtocol Value W) (token : AuthToken) (res : HttpResponse) (body : Value) (w : W)
      → Paired json W p
      → SameTables p q
      → Reparsed token body
      → Through p token (post_single json W token res body (q, w)).1.1 w
  unfolding post_single handle_raw
  post_single-Through p q token res body w paired same again =
      elim (Option-cases (inject json token body)) [
        | inl bad ↦ through w _ (ground arith)
        | inr (request, i) ↦
            let end = (post_single json W token res body (q, w)).1.1 in
            let back = again request i in
            request-Through p q token body request w end paired same i
              (through (handle_request json W q request w).1.1 end (ground (arith, back)))
      ]

  post_batch-Through :
      (p q : McpProtocol Value W) (token : AuthToken) (res : HttpResponse) (batch : List Value)
      (w : W)
      → Paired json W p
      → SameTables p q
      → Through p token (post_batch json W token res batch (q, w)).1.1 w
  unfolding post_batch
  post_batch-Through p q token res batch w paired same =
      elim (Bool-cases (ltb max_batch_size (length batch))) [
        | inl large ↦ through w _ (ground arith)
        | inr fits ↦
            subst (λ x. Through p token x w) (ground arith)
              (serve_batch-Through p q token batch w paired same)
      ]

  post_body-Through :
      (p : McpProtocol Value W) (token : AuthToken) (res : HttpResponse) (body : String) (w : W)
      → Paired json W p
      → ((value : Value) → parse body ≡ returns value → Reparsed token value)
      → Through p token (post_body json W token res body (p, w)).1.1 w
  unfolding post_body
  post_body-Through p token res body w paired again = elim (Answer-cases (parse body)) [
    | inl (what, bad) ↦ through w _ (ground arith)
    | inr (value, e) ↦ elim (Option-cases (items value)) [
      | inl single ↦
          subst (λ x. Through p token x w) (ground arith)
            (post_single-Through p p token res value w paired (p.initialized, refl) (again value e))
      | inr (batch, f) ↦
          subst (λ x. Through p token x w) (ground arith)
            (post_batch-Through p p token res batch w paired (p.initialized, refl))
    ]
  ]

  module _ (hmac : String → String → String) where
    -- Where every handler has its definition, and what is printed of the request with the identity in it
    -- is parsed to it again, a POST leaves what the handlers work on as it is; or it was within the rate limit, a token was
    -- accepted, and what has changed was done by requests of that token's agent, in its role and swarm,
    -- each of which ran one handler that the role may run.
    pub handle_post-Through :
        (t : Transport Value W) (now : Reading) (req : HttpRequest)
        → Paired json W t.protocol
        → ((token : AuthToken) (value : Value)
            → authenticate hmac t.config t.auth now.system req ≡ some token
            → parse req.body ≡ returns value
            → Reparsed token value)
        → ((handle_post json W hmac t now req).1.world ≡ t.world)
          ⊎ ((token : AuthToken) × ((allow t.limiter now.steady req.remote_addr).0 ≡ true)
              × (authenticate hmac t.config t.auth now.system req ≡ some token)
              × Through t.protocol token (handle_post json W hmac t now req).1.world t.world)
    unfolding handle_post
    handle_post-Through t now req paired again =
        elim (Bool-cases (allow t.limiter now.steady req.remote_addr).0) [
          | inr over ↦ inl (ground arith)
          | inl within ↦ elim (Option-cases (authenticate hmac t.config t.auth now.system req)) [
            | inl unknown ↦ inl (ground arith)
            | inr (token, known) ↦ elim (Bool-cases (req.body == "")) [
              | inl empty ↦ inl (ground arith)
              | inr full ↦ inr (
                token,
                within,
                known,
                subst (λ x. Through t.protocol token x t.world) (ground arith)
                    (post_body-Through t.protocol token (apply_cors t.config) req.body t.world
                      paired (λ value e. again token value known e)),
              )
            ]
          ]
        ]
