-- ===== src/Mcp/Access.antt =====
-- Which handler a request may run.
use swarm_mcp.Prelude.{
  String, ◌≡◌, refl, subst, ◌⊎◌, inl, inr, true, false, not, ◌&&◌, Option, none, some, ◌==◌, arith,
  Option-cases, both_branches, guarded_branches,
}
use swarm_mcp.Dict.{lookup}
use swarm_mcp.Auth.Role.{Role, Permission, has_permission, task_read, prompt_use}
use swarm_mcp.Mcp.Json.{Answer, RpcJson}
use swarm_mcp.Mcp.Request.{McpRequest, parse_request, check_auth}
use swarm_mcp.Mcp.Listing.{McpToolDef, McpResourceDef}
use swarm_mcp.Mcp.Protocol.{McpProtocol, Handler}
use swarm_mcp.Mcp.Calls.{
  lacks, Found, missing, forbidden, runs, find_handler, tool_permission, resource_permission,
  tool_call, prompt_call, handle_tools_call, handle_resources_read, handle_prompts_get,
}
use swarm_mcp.Mcp.Serve.{
  Method, tools_list, tools_call, resources_list, resources_read, resources_subscribe, prompts_list,
  prompts_get, initialize, notifications_initialized, ping, method_of, serve, when_initialized,
  Served, by_method, dispatch, handle_request, has_id,
}

find_handler-runs :
    {H : Type 0} (role : Role) (handler : Option H) (required : Option Permission) (h : H)
    → find_handler role handler required ≡ runs h
    → (handler ≡ some h) × (lacks role required ≡ false)
unfolding find_handler
find_handler-runs role none required h e = cc
find_handler-runs role (some g) required h e = ground arith

Found-cases :
    {H : Type 0} (f : Found H) → ((f ≡ missing) ⊎ (f ≡ forbidden)) ⊎ ((h : H) × (f ≡ runs h))
Found-cases missing = inl (inl refl)
Found-cases forbidden = inl (inr refl)
Found-cases (runs h) = inr (h, refl)

module _ (json : RpcJson) (W : Type 0) where
  open json use {lib}
  open lib use {Value, as_text, value, member}

  -- What a request may have run: nothing, or one handler, once.
  pub data Ran (p : McpProtocol Value W) (req : McpRequest Value) (w w' : W) : Type 0 where
    nothing : w' ≡ w → Ran p req w w'
    tool :
        (name : String) (args : Value) (handler : Handler Value W)
        → tool_call json W req.params ≡ some (name, args)
        → lookup name p.tool_handlers ≡ some handler
        → (def : McpToolDef Value) → lookup name p.tools ≡ some def
        → has_permission req.auth_role def.required_permission ≡ true
        → has_permission req.auth_role task_read ≡ true
        → w' ≡ (handler args w).1
        → Ran p req w w'
    resource :
        (uri : String) (handler : Handler Value W)
        → value as_text req.params "uri" "" ≡ some uri
        → lookup uri p.resource_handlers ≡ some handler
        → (def : McpResourceDef) → lookup uri p.resources ≡ some def
        → has_permission req.auth_role def.required_permission ≡ true
        → has_permission req.auth_role task_read ≡ true
        → w' ≡ (handler req.params w).1
        → Ran p req w w'
    prompt :
        (name : String) (args : Value) (handler : Handler Value W)
        → prompt_call json W req.params ≡ some (name, args)
        → lookup name p.prompt_handlers ≡ some handler
        → has_permission req.auth_role prompt_use ≡ true
        → w' ≡ (handler args w).1
        → Ran p req w w'

  -- Each handler that is registered has its definition.
  pub record Paired (p : McpProtocol Value W) : Type 0 where
    pub tools :
        (k : String) (h : Handler Value W)
        → lookup k p.tool_handlers ≡ some h
        → (def : McpToolDef Value) × (lookup k p.tools ≡ some def)
    pub resources :
        (k : String) (h : Handler Value W)
        → lookup k p.resource_handlers ≡ some h
        → (def : McpResourceDef) × (lookup k p.resources ≡ some def)

  tools_call-Ran :
      (p : McpProtocol Value W) (req : McpRequest Value) (w : W)
      → Paired p
      → has_permission req.auth_role task_read ≡ true
      → Ran p req w (handle_tools_call json W p req w).1
  unfolding handle_tools_call lacks
  tools_call-Ran p req w paired may = elim (Option-cases (tool_call json W req.params)) [
    | inl bad ↦ nothing (ground arith)
    | inr ((name, args), e) ↦
        let required = tool_permission (lookup name p.tools) in
        elim (Found-cases (find_handler req.auth_role (lookup name p.tool_handlers) required)) [
          | inl stopped ↦ nothing (ground arith)
          | inr (handler, found) ↦
              let (there, may_run) =
                find_handler-runs req.auth_role (lookup name p.tool_handlers) required handler
                  found in
              let (def, known) = paired.tools name handler there in
              tool name args handler e there def known (ground (arith, may_run, known)) may
                (ground arith)
        ]
  ]

  resources_read-Ran :
      (p : McpProtocol Value W) (req : McpRequest Value) (w : W)
      → Paired p
      → has_permission req.auth_role task_read ≡ true
      → Ran p req w (handle_resources_read json W p req w).1
  unfolding handle_resources_read lacks
  resources_read-Ran p req w paired may = elim (Option-cases (value as_text req.params "uri" "")) [
    | inl bad ↦ nothing (ground arith)
    | inr (uri, e) ↦
        let required = resource_permission (lookup uri p.resources) in
        elim (Found-cases (find_handler req.auth_role (lookup uri p.resource_handlers) required)) [
          | inl stopped ↦ nothing (ground arith)
          | inr (handler, found) ↦
              let (there, may_run) =
                find_handler-runs req.auth_role (lookup uri p.resource_handlers) required handler
                  found in
              let (def, known) = paired.resources uri handler there in
              resource uri handler e there def known (ground (arith, may_run, known)) may
                (ground arith)
        ]
  ]

  prompts_get-Ran :
      (p : McpProtocol Value W) (req : McpRequest Value) (w : W)
      → has_permission req.auth_role prompt_use ≡ true
      → Ran p req w (handle_prompts_get json W p req w).1
  unfolding handle_prompts_get
  prompts_get-Ran p req w may = elim (Option-cases (prompt_call json W req.params)) [
    | inl bad ↦ nothing (ground arith)
    | inr ((name, args), e) ↦ elim (Option-cases (lookup name p.prompt_handlers)) [
      | inl none_there ↦ nothing (ground arith)
      | inr (handler, there) ↦ prompt name args handler e there may (ground arith)
    ]
  ]

  abbrev RanIn : McpProtocol Value W → McpRequest Value → W → Answer Value × W → Type 0
  RanIn p req w served = Ran p req w served.1

  serve-Ran :
      (m : Method) (p : McpProtocol Value W) (req : McpRequest Value) (w : W)
      → Paired p
      → Ran p req w (serve json W m p req w).1
  unfolding serve check_auth
  serve-Ran tools_list p req w paired = nothing refl
  serve-Ran tools_call p req w paired =
      guarded_branches (RanIn p req w) (has_permission req.auth_role task_read) _ _ (nothing refl)
        (tools_call-Ran p req w paired)
  serve-Ran resources_list p req w paired = nothing refl
  serve-Ran resources_read p req w paired =
      guarded_branches (RanIn p req w) (has_permission req.auth_role task_read) _ _ (nothing refl)
        (resources_read-Ran p req w paired)
  serve-Ran resources_subscribe p req w paired =
      guarded_branches (RanIn p req w) (has_permission req.auth_role task_read) _ _ (nothing refl)
        (λ h. nothing refl)
  serve-Ran prompts_list p req w paired =
      guarded_branches (RanIn p req w) (has_permission req.auth_role prompt_use) _ _ (nothing refl)
        (λ h. nothing refl)
  serve-Ran prompts_get p req w paired =
      guarded_branches (RanIn p req w) (has_permission req.auth_role prompt_use) _ _ (nothing refl)
        (prompts_get-Ran p req w)
  serve-Ran m p req w paired = nothing refl

  when_initialized-Ran :
      (m : Method) (p : McpProtocol Value W) (req : McpRequest Value) (w : W)
      → Paired p
      → Ran p req w (when_initialized json W m p req w).1
  unfolding when_initialized
  when_initialized-Ran notifications_initialized p req w paired = nothing refl
  when_initialized-Ran ping p req w paired = nothing refl
  when_initialized-Ran m p req w paired = serve-Ran m p req w paired

  -- Nothing is run, or the server is initialized and one handler may have been run.
  abbrev pub Runs : McpProtocol Value W → McpRequest Value → W → W → Type 0
  Runs p req w w' = (w' ≡ w) ⊎ ((p.initialized ≡ true) × Ran p req w w')

  by_method-Ran :
      (m : Method) (p : McpProtocol Value W) (req : McpRequest Value) (w : W)
      → Paired p
      → Runs p req w (by_method json W m p req w).1.1
  unfolding by_method
  by_method-Ran initialize p req w paired = inl refl
  by_method-Ran m p req w paired =
      let P : Served json W → Type 0 = λ s. Runs p req w s.1.1 in
      guarded_branches P p.initialized _ _ (inl refl)
        (λ on. inr (on, when_initialized-Ran m p req w paired))

  dispatch-Ran :
      (p : McpProtocol Value W) (req : McpRequest Value) (w : W)
      → Paired p
      → Runs p req w (dispatch json W p req w).1.1
  unfolding dispatch
  dispatch-Ran p req w paired =
      let P : Served json W → Type 0 = λ s. Runs p req w s.1.1 in
      both_branches P (not (req.jsonrpc == "2.0")) _ _ (inl refl) (
        both_branches P (req.method == "" && has_id req) _ _ (inl refl)
          (by_method-Ran (method_of req.method) p req w paired))

  -- Where every handler has its definition, a request runs nothing, or the server is initialized and
  -- the request runs one registered handler, once: a tool's, whose permission the request's role has,
  -- besides that to read tasks; a resource's, likewise; or a prompt's, if the role may use prompts.
  pub handle_request-Ran :
      (p : McpProtocol Value W) (request : Value) (w : W)
      → Paired p
      → ((handle_request json W p request w).1.1 ≡ w)
        ⊎ ((req : McpRequest Value) × (parse_request json request ≡ some req)
            × (p.initialized ≡ true)
            × Ran p req w (handle_request json W p request w).1.1)
  unfolding handle_request
  handle_request-Ran p request w paired = elim (Option-cases (parse_request json request)) [
    | inl bad ↦ inl (ground arith)
    | inr (req, e) ↦ elim (dispatch-Ran p req w paired) [
      | inl same ↦ inl (ground arith)
      | inr (on, ran) ↦ inr (req, e, on, subst (Ran p req w) (ground arith) ran)
    ]
  ]
