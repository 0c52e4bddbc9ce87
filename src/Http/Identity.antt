-- ===== src/Http/Identity.antt =====
-- Whose identity a request has that came by POST.
use swarm_mcp.Prelude.{
  String, String_discrete, ◌≡◌, refl, subst, ◌∙◌, Bool-cases, inl, inr, true, some, [], ◌∷◌, arith,
  Option-cases,
}
use std.Option.{some-injective}
use swarm_mcp.Dict.{Dict, lookup}
use swarm_mcp.Json.Read.{read_text, read_value, member-fields}
use swarm_mcp.Auth.Role.{Role, coordinator, worker, observer, role_to_str, role_from_str}
use swarm_mcp.Auth.Token.{AuthToken}
use swarm_mcp.Mcp.Json.{RpcJson}
use swarm_mcp.Mcp.Request.{McpRequest, assign, parse_request, with_auth}
use swarm_mcp.Mcp.Calls.{tool_call}
use swarm_mcp.Http.Post.{auth_context, inject}

role_from_str-role_to_str : (r : Role) → role_from_str (role_to_str r) ≡ r
unfolding role_from_str role_to_str String_discrete
role_from_str-role_to_str coordinator = refl
role_from_str-role_to_str worker = refl
role_from_str-role_to_str observer = refl

module _ (json : RpcJson) where
  open json use {
    lib, merge_patch, member-merge_patch, merge_patch-text, is_null-object, is_null-text,
    is_object-member,
  }
  open lib use {
    Value, null, text, object, set, is_object, is_null, member, as_text, value, is_object-object,
    member-set,
  }

  -- What stands under `_auth` is the token's.
  pub record IsOf (token : AuthToken) (auth : Value) : Type 0 where
    pub agent_id : member auth "agent_id" ≡ some (text token.agent_id)
    pub role : member auth "role" ≡ some (text (role_to_str token.role))
    pub swarm_id : member auth "swarm_id" ≡ some (text token.swarm_id)

  -- The parameters of a request have it.
  pub record Bears (token : AuthToken) (request : Value) : Type 0 where
    pub params : Value
    pub auth : Value
    pub has_params : member request "params" ≡ some params
    pub has_auth : member params "_auth" ≡ some auth
    pub is_of : IsOf token auth

  abbrev pub identity : AuthToken → Dict Value
  identity token =
      ("agent_id", text token.agent_id)
      ∷ ("role", text (role_to_str token.role))
      ∷ ("swarm_id", text token.swarm_id)
      ∷ []

  merged_text :
      (token : AuthToken) (old : Value) (k s : String)
      → lookup k (identity token) ≡ some (text s)
      → member (merge_patch old (object (identity token))) k ≡ some (text s)
  merged_text token old k s e =
      let (older, f) = member-merge_patch old (identity token) k (text s) e (is_null-text s) in
      f ∙ (λ i. some (merge_patch-text older s i))

  IsOf-merge :
      (token : AuthToken) (old : Value) → IsOf token (merge_patch old (object (identity token)))
  unfolding lookup String_discrete
  IsOf-merge token old = record {
    agent_id = merged_text token old "agent_id" token.agent_id refl;
    role = merged_text token old "role" (role_to_str token.role) refl;
    swarm_id = merged_text token old "swarm_id" token.swarm_id refl;
  }

  IsOf-object : (token : AuthToken) → IsOf token (object (identity token))
  unfolding lookup String_discrete
  IsOf-object token = record {
    agent_id = member-fields lib (identity token) "agent_id" (text token.agent_id) refl;
    role = member-fields lib (identity token) "role" (text (role_to_str token.role)) refl;
    swarm_id = member-fields lib (identity token) "swarm_id" (text token.swarm_id) refl;
  }

  member-set_same : (j v : Value) (k : String) → is_object j ≡ true → member (set j k v) k ≡ some v
  member-set_same j v k o = ground (arith, member-set j k k v o)

  member-assign : (j v r : Value) (k : String) → assign json j k v ≡ some r → member r k ≡ some v
  unfolding assign
  member-assign j v r k e = elim (Bool-cases (is_object j)) [
    | inl o ↦
        let same : set j k v ≡ r = some-injective {a = set j k v} {b = r} (ground arith) in
        subst (λ x. member x k ≡ some v) same (member-set_same j v k o)
    | inr o ↦ elim (Bool-cases (is_null j)) [
      | inl n ↦
          let same : set (object []) k v ≡ r =
            some-injective {a = set (object []) k v} {b = r} (ground arith) in
          subst (λ x. member x k ≡ some v) same
            (member-set_same (object []) v k (is_object-object []))
      | inr n ↦ absurd (ground arith)
    ]
  ]

  -- The two ways in which the context comes into the parameters.
  assigned-Bears :
      (token : AuthToken) (item request : Value)
      → assign json item "params" (auth_context json token) ≡ some request
      → Bears token request
  unfolding auth_context lookup String_discrete
  assigned-Bears token item request e = record {
    params = auth_context json token;
    auth = object (identity token);
    has_params = member-assign item (auth_context json token) request "params" e;
    has_auth =
        member-fields lib (("_auth", object (identity token)) ∷ []) "_auth"
          (object (identity token)) refl;
    is_of = IsOf-object token;
  }

  merged-Bears :
      (token : AuthToken) (item params request : Value)
      → is_object item ≡ true
      → set item "params" (merge_patch params (auth_context json token)) ≡ request
      → Bears token request
  unfolding auth_context lookup String_discrete
  merged-Bears token item params request o e =
      let patched = merge_patch params (auth_context json token) in
      let (old, has) =
        member-merge_patch params (("_auth", object (identity token)) ∷ []) "_auth"
          (object (identity token)) refl (is_null-object (identity token)) in
      record {
        params = patched;
        auth = merge_patch old (object (identity token));
        has_params =
            subst (λ r. member r "params" ≡ some patched) e
              (member-set_same item patched "params" o);
        has_auth = has;
        is_of = IsOf-merge token old;
      }

  inject-Bears :
      (token : AuthToken) (item request : Value)
      → inject json token item ≡ some request
      → Bears token request
  unfolding inject
  inject-Bears token item request e = elim (Option-cases (member item "params")) [
    | inl missing ↦ assigned-Bears token item request (ground arith)
    | inr (params, there) ↦ elim (Bool-cases (is_object params)) [
      | inl o ↦
          let patched = set item "params" (merge_patch params (auth_context json token)) in
          merged-Bears token item params request (is_object-member item "params" params there)
            (some-injective {a = patched} {b = request} (ground arith))
      | inr other ↦ assigned-Bears token item request (ground arith)
    ]
  ]

  -- What the request is taken to say of who sends it.
  pub parse_request-Bears :
      (token : AuthToken) (request : Value) (req : McpRequest Value)
      → Bears token request
      → parse_request json request ≡ some req
      → (req.auth_agent_id ≡ token.agent_id)
        × (req.auth_role ≡ token.role)
        × (req.auth_swarm_id ≡ token.swarm_id)
  unfolding parse_request with_auth
  parse_request-Bears token request req b e =
      let p = read_value lib request "params" b.params (object []) b.has_params in
      let i = read_text lib b.auth "agent_id" token.agent_id "" b.is_of.agent_id in
      let r = read_text lib b.auth "role" (role_to_str token.role) "observer" b.is_of.role in
      let s = read_text lib b.auth "swarm_id" token.swarm_id "" b.is_of.swarm_id in
      let back = role_from_str-role_to_str token.role in
      ground (arith, p, i, r, s, back, b.has_auth)

  parse_request-params :
      (token : AuthToken) (request : Value) (req : McpRequest Value) (b : Bears token request)
      → parse_request json request ≡ some req
      → req.params ≡ b.params
  unfolding parse_request with_auth
  parse_request-params token request req b e =
      let p = read_value lib request "params" b.params (object []) b.has_params in
      let i = read_text lib b.auth "agent_id" token.agent_id "" b.is_of.agent_id in
      let r = read_text lib b.auth "role" (role_to_str token.role) "observer" b.is_of.role in
      let s = read_text lib b.auth "swarm_id" token.swarm_id "" b.is_of.swarm_id in
      ground (arith, p, i, r, s, b.has_auth)

  -- Whatever a request says of its sender, once the transport has put in the identity of the token it
  -- is taken to come from the token's agent, in the token's role and swarm.
  pub inject_identity :
      (token : AuthToken) (item request : Value) (req : McpRequest Value)
      → inject json token item ≡ some request
      → parse_request json request ≡ some req
      → (req.auth_agent_id ≡ token.agent_id)
        × (req.auth_role ≡ token.role)
        × (req.auth_swarm_id ≡ token.swarm_id)
  inject_identity token item request req i e =
      parse_request-Bears token request req (inject-Bears token item request i) e

  passed :
      (W : Type 0) (params auth : Value) (name : String) (args : Value)
      → member params "_auth" ≡ some auth
      → tool_call json W params ≡ some (name, args)
      → member args "_auth" ≡ some auth
  unfolding tool_call
  passed W params auth name args has c = elim (Option-cases (value as_text params "name" "")) [
    | inl bad ↦ absurd (ground arith)
    | inr (n, e) ↦ elim (Option-cases (value some params "arguments" (object []))) [
      | inl bad ↦ absurd (ground arith)
      | inr (a, f) ↦ elim (Option-cases (assign json a "_auth" auth)) [
        | inl bad ↦ absurd (ground arith)
        | inr (a', g) ↦
            let found : String × Value = (n, a') in
            let asked : String × Value = (name, args) in
            let same : found ≡ asked = some-injective {a = found} {b = asked} (ground arith) in
            subst (λ x. member x "_auth" ≡ some auth) (λ i. (same i).1)
              (member-assign a auth a' "_auth" g)
      ]
    ]
  ]

  -- A tool that such a request calls finds the token's agent, role and swarm under `_auth` of its
  -- arguments, whatever the client has put there.
  pub tool_call-IsOf :
      (W : Type 0) (token : AuthToken) (item request : Value) (req : McpRequest Value)
      (name : String) (args : Value)
      → inject json token item ≡ some request
      → parse_request json request ≡ some req
      → tool_call json W req.params ≡ some (name, args)
      → (auth : Value) × (member args "_auth" ≡ some auth) × IsOf token auth
  tool_call-IsOf W token item request req name args i e c =
      let b = inject-Bears token item request i in
      let same = parse_request-params token request req b e in
      (b.auth, passed W req.params b.auth name args (ground (arith, same, b.has_auth)) c, b.is_of)
