-- ===== src/Mcp/Lists.antt =====
-- What the answers to `tools/list` and `resources/list` hold.
use swarm_mcp.Prelude.{
  ℕ, suc, ◌+◌, ◌≤◌, ◌<◌, String, String_discrete, ◌≡◌, ◌≢◌, refl, text_ne, ap, ◌∙◌, Bool, true,
  false, none, some, List, [], ◌∷◌, map, length, length-map, length-take, take, drop, min, arith,
  ltb, Bool-cases, inl, inr,
}
use swarm_mcp.Dict.{Dict, lookup, select}
use swarm_mcp.Auth.Role.{Role, coordinator, coordinator_may, has_permission}
use swarm_mcp.Mcp.Json.{ℤ, pos, RpcJson}
use swarm_mcp.Mcp.Listing.{
  McpToolDef, page, page_limit, paged, listing, int_param, tool_json, handle_tools_list,
}
use swarm_mcp.Mcp.Pages.{page_limit-bounds, start, entries, page_lem}

select-length : {V : Type 0} (p : V → Bool) (m : Dict V) → length (select p m) ≤ length m
unfolding select
select-length p [] = omega arith
select-length p ((k, v) ∷ m) = ground (arith, select-length p m)

select-hidden :
    {V : Type 0} (p : V → Bool) (k : String) (v : V) (m : Dict V)
    → lookup k m ≡ some v
    → p v ≡ false
    → length (select p m) < length m
unfolding select lookup
select-hidden p k v [] e h = cc
select-hidden p k v ((j, w) ∷ m) e h = elim (String_discrete j k) [
  | yes hit ↦ ground (arith, select-length p m)
  | no miss ↦ ground (arith, select-hidden p k v m)
]

abbrev pub values : {V : Type 0} → Dict V → List V
values [] = []
values ((k, v) ∷ m) = v ∷ values m

select-all :
    {V : Type 0} (p : V → Bool) (m : Dict V) → ((v : V) → p v ≡ true) → select p m ≡ values m
unfolding select
select-all p [] h = refl
select-all p ((k, v) ∷ m) h = ground (arith, select-all p m h, h v)

length-values : {V : Type 0} (m : Dict V) → length (values m) ≡ length m
length-values [] = refl
length-values ((k, v) ∷ m) = ap suc (length-values m)

abbrev pub may_use : {J : Type 0} → Role → McpToolDef J → Bool
may_use role def = has_permission role def.required_permission

-- Whatever limit is asked for, a page has at most that many entries as the limit is changed to, which
-- is from 1 to 1000; and it ends at no number above the size of the table.
pub page-bounds :
    {V J : Type 0} (shown : V → Bool) (view : V → J) (cursor limit : ℤ) (m : Dict V)
    → (1 ≤ page_limit limit)
      × (page_limit limit ≤ 1000)
      × (length (page shown view cursor (page_limit limit) 0 0 m).0 ≤ page_limit limit)
      × ((page shown view cursor (page_limit limit) 0 0 m).1 ≤ length m)
page-bounds shown view cursor limit m =
    let (found, end) = page_lem shown view cursor (page_limit limit) m in
    let (low, high) = page_limit-bounds limit in
    let taken = length-take (page_limit limit) (drop (start cursor) (entries shown view m)) in
    let same = length-map view (select shown m) in
    let fewer = select-length shown m in
    (low, high, ground (arith, found, taken), ground (arith, end, same, fewer))

module _ (json : RpcJson) where
  open json use {lib, integer, array}
  open lib use {Value, object, member, member-object, member-set, is_object-object}

  abbrev pub tools_for : Role → Dict (McpToolDef Value) → List Value
  tools_for role tools = entries (may_use role) (tool_json json) tools

  listed :
      (role : Role) (params : Value) (tools : Dict (McpToolDef Value)) (cursor limit : ℤ)
      → int_param json params "_cursor" (pos 0) ≡ some cursor
      → int_param json params "_limit" (pos 100) ≡ some limit
      → handle_tools_list json role params tools
        ≡ some (
            listing json "tools"
              (page (may_use role) (tool_json json) cursor (page_limit limit) 0 0 tools)
              (length tools))
  unfolding handle_tools_list paged
  listed role params tools cursor limit c l = rw (c, l)

  handle_tools_list-listing :
      (role : Role) (params : Value) (tools : Dict (McpToolDef Value)) (cursor limit : ℤ)
      → int_param json params "_cursor" (pos 0) ≡ some cursor
      → int_param json params "_limit" (pos 100) ≡ some limit
      → handle_tools_list json role params tools
        ≡ some (
            listing json "tools"
              (
                take (page_limit limit) (drop (start cursor) (tools_for role tools)),
                min (length (tools_for role tools)) (start cursor + page_limit limit),
              )
              (length tools))
  handle_tools_list-listing role params tools cursor limit c l =
      let (found, end) = page_lem (may_use role) (tool_json json) cursor (page_limit limit) tools in
      listed role params tools cursor limit c l
      ∙ (λ i. some (listing json "tools" (found i, end i) (length tools)))

  next_cursor :
      (key : String) (vs : List Value) (n size : ℕ)
      → n < size
      → key ≢ "_nextCursor"
      → member (listing json key (vs, n) size) "_nextCursor" ≡ some (integer (pos n))
  unfolding listing
  next_cursor key vs n size h ne =
      let before = object ((key, array vs) ∷ []) in
      ground (
        arith,
        member-set before "_nextCursor" "_nextCursor" (integer (pos n))
            (is_object-object ((key, array vs) ∷ [])),
      )

  listing-key :
      (key : String) (vs : List Value) (n size : ℕ)
      → key ≢ "_nextCursor"
      → member (listing json key (vs, n) size) key ≡ some (array vs)
  unfolding listing lookup
  listing-key key vs n size ne =
      let before = object ((key, array vs) ∷ []) in
      let there = member-object ((key, array vs) ∷ []) key in
      elim (Bool-cases (ltb n size)) [
        | inl on ↦ ground (
          arith,
          there,
          member-set before "_nextCursor" key (integer (pos n))
              (is_object-object ((key, array vs) ∷ [])),
        )
        | inr over ↦ ground (arith, there)
      ]

  no_next_cursor :
      (key : String) (vs : List Value) (n size : ℕ)
      → size ≤ n
      → key ≢ "_nextCursor"
      → member (listing json key (vs, n) size) "_nextCursor" ≡ none
  unfolding listing lookup
  no_next_cursor key vs n size h ne =
      ground (arith, member-object ((key, array vs) ∷ []) "_nextCursor")

  -- What an answer to `tools/list` holds: entries, and where to go on.
  pub record Listed (result : Value) (vs : List Value) (end size : ℕ) : Type 0 where
    pub tools : member result "tools" ≡ some (array vs)
    pub goes_on : end < size → member result "_nextCursor" ≡ some (integer (pos end))
    pub ends : size ≤ end → member result "_nextCursor" ≡ none

  -- Where the cursor and the limit can be read, `tools/list` answers under "tools" with the tools that
  -- the role may use, in order, from the cursor on (a cursor below zero is zero) and up to the limit;
  -- and `_nextCursor` is the number of them that lie before the end of the page, where that is less
  -- than the number of all tools, and is not there otherwise.
  pub handle_tools_list_lem :
      (role : Role) (params : Value) (tools : Dict (McpToolDef Value)) (cursor limit : ℤ)
      → int_param json params "_cursor" (pos 0) ≡ some cursor
      → int_param json params "_limit" (pos 100) ≡ some limit
      → (result : Value) × (handle_tools_list json role params tools ≡ some result)
        × Listed result
            (take (page_limit limit) (drop (start cursor) (tools_for role tools)))
            (min (length (tools_for role tools)) (start cursor + page_limit limit))
            (length tools)
  unfolding String_discrete
  handle_tools_list_lem role params tools cursor limit c l =
      let all = tools_for role tools in
      let end = min (length all) (start cursor + page_limit limit) in
      let vs = take (page_limit limit) (drop (start cursor) all) in
      let ne = text_ne "tools" "_nextCursor" refl in
      (
        listing json "tools" (vs, end) (length tools),
        handle_tools_list-listing role params tools cursor limit c l,
        record {
          tools = listing-key "tools" vs end (length tools) ne;
          goes_on = λ h. next_cursor "tools" vs end (length tools) h ne;
          ends = λ h. no_next_cursor "tools" vs end (length tools) h ne;
        },
      )

  -- If some tool is not for the role, every page that is answered has a `_nextCursor`, also the last
  -- one and those behind it: a client that goes on until there is none does not come to an end.
  pub handle_tools_list-next_cursor :
      (role : Role) (params : Value) (tools : Dict (McpToolDef Value)) (cursor limit : ℤ)
      (k : String) (def : McpToolDef Value)
      → int_param json params "_cursor" (pos 0) ≡ some cursor
      → int_param json params "_limit" (pos 100) ≡ some limit
      → lookup k tools ≡ some def
      → has_permission role def.required_permission ≡ false
      → (result : Value) × (n : ℕ) × (handle_tools_list json role params tools ≡ some result)
        × (member result "_nextCursor" ≡ some (integer (pos n)))
  unfolding String_discrete
  handle_tools_list-next_cursor role params tools cursor limit k def c l e h =
      let all = tools_for role tools in
      let end = min (length all) (start cursor + page_limit limit) in
      let vs = take (page_limit limit) (drop (start cursor) all) in
      let fewer = select-hidden (may_use role) k def tools e h in
      let same = length-map (tool_json json) (select (may_use role) tools) in
      (
        listing json "tools" (vs, end) (length tools),
        end,
        handle_tools_list-listing role params tools cursor limit c l,
        next_cursor "tools" vs end (length tools) (ground (arith, fewer, same))
            (text_ne "tools" "_nextCursor" refl),
      )

  -- A coordinator may use all tools.
  pub tools_for-coordinator :
      (tools : Dict (McpToolDef Value))
      → (tools_for coordinator tools ≡ map (tool_json json) (values tools))
        × (length (tools_for coordinator tools) ≡ length tools)
  tools_for-coordinator tools =
      let shown =
        select-all (may_use coordinator) tools (λ def. coordinator_may def.required_permission) in
      let same = length-map (tool_json json) (select (may_use coordinator) tools) in
      (ap (map (tool_json json)) shown, same ∙ (ap length shown ∙ length-values tools))
