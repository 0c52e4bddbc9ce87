-- ===== src/Mcp/Listing.antt =====
-- What a client can list: tools, resources and prompts, page by page.
use swarm_mcp.Prelude.{
  ℕ, suc, String, Bool, true, false, Option, none, some, List, [], ◌∷◌, ltb, leb, if◌then◌else◌,
  length,
}
use swarm_mcp.Dict.{Dict}
use swarm_mcp.Json.{◌>>=◌}
use swarm_mcp.Text.{◌=ᵇ◌}
use swarm_mcp.Auth.Role.{Role, Permission, has_permission}
use swarm_mcp.Mcp.Json.{ℤ, pos, negsuc, RpcJson}

pub record McpToolDef (J : Type 0) : Type 0 where
  pub name : String
  pub description : String
  pub input_schema : J
  pub required_permission : Permission

pub record McpResourceDef : Type 0 where
  pub uri : String
  pub name : String
  pub description : String
  pub mime_type : String
  pub required_permission : Permission

pub record McpPromptDef (J : Type 0) : Type 0 where
  pub name : String
  pub description : String
  pub arguments : List J

-- i < cursor
abbrev pub before : ℕ → ℤ → Bool
before i (pos c) = ltb i c
before i (negsuc c) = false

-- The limit that is used for the one that is asked for.
unfoldable pub page_limit : ℤ → ℕ
page_limit (pos n) = if n =ᵇ 0 then 100 else if leb n 1000 then n else 1000
page_limit (negsuc n) = 100

-- The loop of the three `handle_…_list`, from the counters `i` and `count` on: the entries that it
-- adds, and `i` at its end.
unfoldable pub page :
    {V J : Type 0}
    → (shown : V → Bool) → (view : V → J) → (cursor : ℤ) → (limit i count : ℕ) → Dict V
    → List J × ℕ
page shown view cursor limit i count [] = ([], i)
page shown view cursor limit i count ((k, v) ∷ m) =
    let hidden = page shown view cursor limit i count m in
    let skipped = page shown view cursor limit (suc i) count m in
    let (rest, end) = page shown view cursor limit (suc i) (suc count) m in
    if shown v
    then if before i cursor
      then skipped
      else if leb limit count
      then ([], i)
      else (view v ∷ rest, end)
    else hidden

module _ (json : RpcJson) where
  open json use {lib, integer, array, as_rounded}
  open lib use {Value, text, object, set, is_number, member}

  -- A member that is a number, or the default.
  abbrev pub int_param : Value → String → ℤ → Option ℤ
  int_param params key default = elim (member params key) [
    | none ↦ some default
    | some v ↦ if is_number v then as_rounded v else some default
  ]

  -- The end of the three: the entries, and where to go on.
  unfoldable pub listing : String → List Value × ℕ → (size : ℕ) → Value
  listing key (entries, i) size =
      let result = object ((key, array entries) ∷ []) in
      if ltb i size then set result "_nextCursor" (integer (pos i)) else result

  unfoldable pub paged :
      {V : Type 0} → String → (V → Bool) → (V → Value) → (params : Value) → Dict V → Option Value
  unfolding listing page page_limit
  paged key shown view params m = int_param params "_cursor" (pos 0) >>= λ cursor.
      int_param params "_limit" (pos 100) >>= λ limit.
      some (listing key (page shown view cursor (page_limit limit) 0 0 m) (length m))

  unfoldable pub tool_json : McpToolDef Value → Value
  tool_json def = object (
      ("name", text def.name)
      ∷ ("description", text def.description)
      ∷ ("inputSchema", def.input_schema)
      ∷ [])

  unfoldable pub resource_json : McpResourceDef → Value
  resource_json def = object (
      ("uri", text def.uri)
      ∷ ("name", text def.name)
      ∷ ("description", text def.description)
      ∷ ("mimeType", text def.mime_type)
      ∷ [])

  unfoldable pub prompt_json : McpPromptDef Value → Value
  prompt_json def =
      let p = object (("name", text def.name) ∷ ("description", text def.description) ∷ []) in
      if length def.arguments =ᵇ 0 then p else set p "arguments" (array def.arguments)

  unfoldable pub handle_tools_list : Role → Value → Dict (McpToolDef Value) → Option Value
  unfolding paged tool_json
  handle_tools_list role params tools =
      paged "tools" (λ def. has_permission role def.required_permission) tool_json params tools

  unfoldable pub handle_resources_list : Role → Value → Dict McpResourceDef → Option Value
  unfolding paged resource_json
  handle_resources_list role params resources =
      paged "resources" (λ def. has_permission role def.required_permission) resource_json params
        resources

  unfoldable pub handle_prompts_list : Value → Dict (McpPromptDef Value) → Option Value
  unfolding paged prompt_json
  handle_prompts_list params prompts = paged "prompts" (λ def. true) prompt_json params prompts
