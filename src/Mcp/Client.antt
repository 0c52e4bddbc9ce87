-- ===== src/Mcp/Client.antt =====
-- A client that lists all tools, page by page.
use swarm_mcp.Prelude.{
  ℕ, zero, suc, ◌+◌, ◌≤◌, ◌<◌, ◌^◌, ◌≡◌, ◌∙◌, ap, Option, none, some, List, [], ◌∷◌, ◌++◌, map,
  length, take, drop, min, dec_lt, arith, take-drop, drop-all, append-nil, String_discrete,
}
use swarm_mcp.Dict.{Dict, lookup}
use swarm_mcp.Json.{◌>>=◌}
use swarm_mcp.Auth.Role.{coordinator}
use swarm_mcp.Mcp.Json.{ℤ, pos, FitsInt, RpcJson}
use swarm_mcp.Mcp.Listing.{McpToolDef, page_limit, int_param, tool_json, handle_tools_list}
use swarm_mcp.Mcp.Pages.{page_limit-bounds}
use swarm_mcp.Mcp.Lists.{values, tools_for, tools_for-coordinator, handle_tools_list_lem}

module _ (json : RpcJson) where
  open json use {
    lib, integer, array, items, as_integer, is_number-integer, items-array, as_integer-integer,
    as_rounded-integer,
  }
  open lib use {Value, object, member, member-object}

  abbrev pub asking : (cursor limit : ℤ) → Value
  asking cursor limit = object (("_cursor", integer cursor) ∷ ("_limit", integer limit) ∷ [])

  -- What a coordinator reads who asks from a cursor on, and asks again at `_nextCursor` for as long as
  -- an answer has one: nothing where an answer has no list of tools, where `_nextCursor` is no
  -- integer, or where it takes more rounds than `fuel`.
  pub fetch : (fuel : ℕ) → (cursor limit : ℤ) → Dict (McpToolDef Value) → Option (List Value)
  fetch zero cursor limit tools = none
  fetch (suc fuel) cursor limit tools =
      handle_tools_list json coordinator (asking cursor limit) tools >>= λ result.
      member result "tools" >>= λ listed. items listed >>= λ vs.
      elim (member result "_nextCursor") [
        | none ↦ some vs
        | some next ↦
            as_integer next >>= λ c. fetch fuel c limit tools >>= λ more. some (vs ++ more)
      ]

  cursor_read :
      (cursor limit : ℤ)
      → FitsInt cursor
      → int_param json (asking cursor limit) "_cursor" (pos 0) ≡ some cursor
  unfolding lookup String_discrete
  cursor_read cursor limit fits =
      let there =
        member-object (("_cursor", integer cursor) ∷ ("_limit", integer limit) ∷ []) "_cursor" in
      ground (arith, there, is_number-integer cursor, as_rounded-integer cursor fits)

  limit_read :
      (cursor limit : ℤ)
      → FitsInt limit
      → int_param json (asking cursor limit) "_limit" (pos 100) ≡ some limit
  unfolding lookup String_discrete
  limit_read cursor limit fits =
      let there =
        member-object (("_cursor", integer cursor) ∷ ("_limit", integer limit) ∷ []) "_limit" in
      ground (arith, there, is_number-integer limit, as_rounded-integer limit fits)

  module _ (limit : ℤ) (tools : Dict (McpToolDef Value)) (fits : FitsInt limit)
      (small : length tools < 2 ^ 31) where
    abbrev all_tools : List Value
    all_tools = tools_for json coordinator tools

    fetch-drop :
        (fuel c : ℕ)
        → length all_tools ≡ length tools
        → c ≤ length tools
        → length tools < c + fuel
        → fetch fuel (pos c) limit tools ≡ some (drop c all_tools)
    unfolding fetch
    fetch-drop zero c same low enough = absurd (omega arith)
    fetch-drop (suc fuel) c same low enough =
        let cursor_fits : FitsInt (pos c) = omega arith in
        let (result, e, listed) =
          handle_tools_list_lem json coordinator (asking (pos c) limit) tools (pos c) limit
            (cursor_read (pos c) limit cursor_fits) (limit_read (pos c) limit fits) in
        let vs = take (page_limit limit) (drop c all_tools) in
        let read = items-array vs in
        let got = listed.tools in
        let whole = take-drop (page_limit limit) c all_tools in
        let next = c + page_limit limit in
        elim (dec_lt next (length tools)) [
          | yes on ↦
              let at : min (length all_tools) next ≡ next = grind (arith, on, same) in
              let goes = listed.goes_on (omega (arith, at, on)) in
              let number = as_integer-integer (pos next) (omega (arith, on, small)) in
              let rest =
                fetch-drop fuel next same (omega (arith, on))
                  (omega (arith, enough, (page_limit-bounds limit).0)) in
              ground (arith, e, got, read, goes, number, rest, at, whole)
          | no over ↦
              let at : min (length all_tools) next ≡ length tools = grind (arith, over, same) in
              let stops = listed.ends (omega (arith, at)) in
              let last = drop-all next all_tools (omega (arith, over, same)) in
              ground (arith, e, got, read, stops, at, whole, last, append-nil vs)
        ]

  -- A coordinator who asks for the tools from 0 on with any limit, and again at `_nextCursor` while an
  -- answer has one, comes to an end after at most one round more than there are tools, and has read
  -- every tool, once and in order; the limit and the number of tools are below 2 ^ 31.
  pub fetch-all :
      (limit : ℤ) (tools : Dict (McpToolDef Value))
      → FitsInt limit
      → length tools < 2 ^ 31
      → fetch (suc (length tools)) (pos 0) limit tools ≡ some (map (tool_json json) (values tools))
  fetch-all limit tools fits small =
      let (shown, same) = tools_for-coordinator json tools in
      fetch-drop limit tools fits small (suc (length tools)) 0 same (omega arith) (omega arith)
      ∙ ap some shown
