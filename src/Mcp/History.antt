-- ===== src/Mcp/History.antt =====
-- Any calls of a protocol, from its construction on.
use swarm_mcp.Prelude.{
  String, some, ◌≡◌, refl, sym, subst, ◌⊎◌, inl, inr, true, not, List, [], ◌∷◌, In, ◌==◌, ◌&&◌,
  arith, Option-cases, both_branches, guarded_branches,
}
use swarm_mcp.Dict.{lookup, inserted, inserted_related}
use swarm_mcp.Mcp.Json.{RpcJson}
use swarm_mcp.Mcp.Request.{McpRequest, parse_request}
use swarm_mcp.Mcp.Listing.{McpToolDef, McpResourceDef, McpPromptDef}
use swarm_mcp.Mcp.Protocol.{
  McpProtocol, Handler, protocol, ServerInfo, ServerCapabilities, register_tool, register_resource,
  register_prompt, set_notification_handler, on_notification,
}
use swarm_mcp.Mcp.Serve.{
  Method, initialize, Served, method_of, has_id, by_method, dispatch, handle_request,
  handle_initialize,
}
use swarm_mcp.Mcp.Access.{Paired}

module _ (json : RpcJson) (W : Type 0) where
  open json use {lib}
  open lib use {Value}

  pub data Call : Type 0 where
    tool : McpToolDef Value → Handler Value W → Call
    resource : McpResourceDef → Handler Value W → Call
    prompt : McpPromptDef Value → Handler Value W → Call
    notification : String → (Value → W → W) → Call
    callback : (String → Value → W → W) → Call
    request : Value → Call

  abbrev pub step : Call → McpProtocol Value W × W → McpProtocol Value W × W
  step (tool def handler) (p, w) = (register_tool p def handler, w)
  step (resource def handler) (p, w) = (register_resource p def handler, w)
  step (prompt def handler) (p, w) = (register_prompt p def handler, w)
  step (notification method handler) (p, w) = (set_notification_handler p method handler, w)
  step (callback cb) (p, w) = (on_notification p cb, w)
  step (request r) (p, w) = (handle_request json W p r w).1

  abbrev pub run : List Call → McpProtocol Value W × W → McpProtocol Value W × W
  run [] s = s
  run (c ∷ cs) s = run cs (step c s)

  -- A request leaves the tables as they are.
  abbrev pub Started : McpProtocol Value W → McpProtocol Value W → Type 0
  Started p p' = (p' ≡ p) ⊎ (p' ≡ record p { initialized = true })

  by_method-Started :
      (m : Method) (p : McpProtocol Value W) (req : McpRequest Value) (w : W)
      → Started p (by_method json W m p req w).1.0
  unfolding by_method handle_initialize
  by_method-Started initialize p req w = inr refl
  by_method-Started m p req w =
      let P : Served json W → Type 0 = λ s. Started p s.1.0 in
      guarded_branches P p.initialized _ _ (inl refl) (λ on. inl refl)

  dispatch-Started :
      (p : McpProtocol Value W) (req : McpRequest Value) (w : W)
      → Started p (dispatch json W p req w).1.0
  unfolding dispatch
  dispatch-Started p req w =
      let P : Served json W → Type 0 = λ s. Started p s.1.0 in
      both_branches P (not (req.jsonrpc == "2.0")) _ _ (inl refl) (
        both_branches P (req.method == "" && has_id req) _ _ (inl refl)
          (by_method-Started (method_of req.method) p req w))

  pub handle_request-Started :
      (p : McpProtocol Value W) (r : Value) (w : W) → Started p (handle_request json W p r w).1.0
  unfolding handle_request
  handle_request-Started p r w = elim (Option-cases (parse_request json r)) [
    | inl bad ↦ inl (ground arith)
    | inr (req, e) ↦ subst (Started p) (ground arith) (dispatch-Started p req w)
  ]

  step-Paired :
      (c : Call) (p : McpProtocol Value W) (w : W)
      → Paired json W p
      → Paired json W (step c (p, w)).0
  unfolding register_tool register_resource register_prompt set_notification_handler on_notification
  step-Paired (tool def handler) p w old = record {
    tools = λ k h e. inserted def.name k handler def p.tool_handlers p.tools h e (old.tools k);
    resources = old.resources;
  }
  step-Paired (resource def handler) p w old = record {
    tools = old.tools;
    resources = λ k h e.
        inserted def.uri k handler def p.resource_handlers p.resources h e (old.resources k);
  }
  step-Paired (prompt def handler) p w old = record { tools = old.tools; resources = old.resources }
  step-Paired (notification method handler) p w old = record {
    tools = old.tools;
    resources = old.resources;
  }
  step-Paired (callback cb) p w old = record { tools = old.tools; resources = old.resources }
  step-Paired (request r) p w old = elim (handle_request-Started p r w) [
    | inl same ↦ subst (Paired json W) (sym same) old
    | inr started ↦
        subst (Paired json W) (sym started)
          (record { tools = old.tools; resources = old.resources })
  ]

  run-Paired :
      (cs : List Call) (p : McpProtocol Value W) (w : W)
      → Paired json W p
      → Paired json W (run cs (p, w)).0
  run-Paired [] p w old = old
  run-Paired (c ∷ cs) p w old =
      let s = step c (p, w) in run-Paired cs s.0 s.1 (step-Paired c p w old)

  -- After any calls on a new protocol every handler of a tool or a resource has a definition.
  pub run-protocol-Paired :
      (info : ServerInfo) (caps : ServerCapabilities) (cs : List Call) (w : W)
      → Paired json W (run cs (protocol info caps, w)).0
  unfolding protocol lookup
  run-protocol-Paired info caps cs w =
      run-Paired cs (protocol info caps) w (record { tools = λ k h e. cc; resources = λ k h e. cc })

  -- Each handler of a tool or a resource came with the definition that stands under the same name, in
  -- one of the calls.
  pub record Registered (cs : List Call) (p : McpProtocol Value W) : Type 0 where
    pub tools :
        (k : String) (h : Handler Value W)
        → lookup k p.tool_handlers ≡ some h
        → (def : McpToolDef Value) × (lookup k p.tools ≡ some def)
          × ((def.name ≡ k) × In (tool def h) cs)
    pub resources :
        (k : String) (h : Handler Value W)
        → lookup k p.resource_handlers ≡ some h
        → (def : McpResourceDef) × (lookup k p.resources ≡ some def)
          × ((def.uri ≡ k) × In (resource def h) cs)

  module _ (all : List Call) where
    step-Registered :
        (c : Call) (p : McpProtocol Value W) (w : W)
        → In c all
        → Registered all p
        → Registered all (step c (p, w)).0
    unfolding register_tool register_resource register_prompt set_notification_handler
        on_notification
    step-Registered (tool def handler) p w came old = record {
      tools = λ k h e.
          inserted_related (λ j g d. (d.name ≡ j) × In (tool d g) all) def.name k handler def
            p.tool_handlers p.tools h e (refl, came) (old.tools k);
      resources = old.resources;
    }
    step-Registered (resource def handler) p w came old = record {
      tools = old.tools;
      resources = λ k h e.
          inserted_related (λ j g d. (d.uri ≡ j) × In (resource d g) all) def.uri k handler def
            p.resource_handlers p.resources h e (refl, came) (old.resources k);
    }
    step-Registered (prompt def handler) p w came old = record {
      tools = old.tools;
      resources = old.resources;
    }
    step-Registered (notification method handler) p w came old = record {
      tools = old.tools;
      resources = old.resources;
    }
    step-Registered (callback cb) p w came old = record {
      tools = old.tools;
      resources = old.resources;
    }
    step-Registered (request r) p w came old = elim (handle_request-Started p r w) [
      | inl same ↦ subst (Registered all) (sym same) old
      | inr started ↦
          subst (Registered all) (sym started)
            (record { tools = old.tools; resources = old.resources })
    ]

    run-Registered :
        (cs : List Call) (p : McpProtocol Value W) (w : W)
        → ((c : Call) → In c cs → In c all)
        → Registered all p
        → Registered all (run cs (p, w)).0
    run-Registered [] p w came old = old
    run-Registered (c ∷ cs) p w came old =
        let s = step c (p, w) in
        run-Registered cs s.0 s.1 (λ d h. came d (inr h))
          (step-Registered c p w (came c (inl refl)) old)

  -- After any registrations and requests, in any order, on a new protocol: a handler of a tool that is
  -- stored under a name was registered under that name together with the definition, and so the
  -- required permission, that is stored under the name; and likewise a handler of a resource.
  pub run-protocol-Registered :
      (info : ServerInfo) (caps : ServerCapabilities) (cs : List Call) (w : W)
      → Registered cs (run cs (protocol info caps, w)).0
  unfolding protocol lookup
  run-protocol-Registered info caps cs w =
      run-Registered cs cs (protocol info caps) w (λ c h. h)
        (record { tools = λ k h e. cc; resources = λ k h e. cc })
