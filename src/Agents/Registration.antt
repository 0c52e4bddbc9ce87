-- ===== src/Agents/Registration.antt =====
-- What a registration stores, and whom the search for idle agents finds.
use swarm_mcp.Prelude.{String, ◌≡◌, ◌≢◌, ◌↔◌, ◌⊎◌, refl, inl, inr, some, arith, In, Option-cases}
use mathlib.Core.Option
use swarm_mcp.Dict.{lookup, lookup-insert, Once, In-select_of_lookup, lookup_of_In-select}
use swarm_mcp.Json.{JsonLib}
use swarm_mcp.Auth.Token.{AuthToken}
use swarm_mcp.Agents.Agent.{
  AgentInfo, online, idle, object_member, model_from_json, environment_from_json,
}
use swarm_mcp.Agents.Registry.{AgentRegistry, Environ, admitted, register_agent, find_idle_in_swarm}

module _ (lib : JsonLib) where
  open lib use {Value}

  -- A registration that answers an id comes from a token of the server's swarm, if the server has
  -- one. The agent is stored under that id, with the token's role, the server's swarm, and online,
  -- whatever it says of itself; and no other agent is touched.
  pub register_agent_lem :
      (r : AgentRegistry Value) (env : Environ) (info : AgentInfo Value) (token : AuthToken)
      (id : String)
      → Option.map (λ o. o.result) (register_agent lib r env info token) ≡ some id
      → id ≢ ""
      → (after : AgentRegistry Value)
        (done : Option.map (λ o. o.state) (register_agent lib r env info token) ≡ some after)
      → (a : AgentInfo Value) × (lookup id after.agents ≡ some a)
        × (a.role ≡ token.role)
        × (a.swarm_id ≡ r.swarm_id)
        × (a.status ≡ online)
        × ((token.swarm_id ≡ r.swarm_id) ⊎ (r.swarm_id ≡ ""))
        × ((k : String) → k ≢ id → lookup k after.agents ≡ lookup k r.agents)
  unfolding register_agent
  register_agent_lem r env info token id h new after done =
      let a = admitted lib r env info token in
      let facts : (a.role ≡ token.role) × (a.swarm_id ≡ r.swarm_id) × (a.status ≡ online) =
        unfold admitted in (refl, refl, refl) in
      elim (Option-cases (object_member lib (model_from_json lib) a.metadata "model" a.model)) [
        | inl e ↦ absurd (ground arith)
        | inr (model, e) ↦
            elim (Option-cases (
              object_member lib (environment_from_json lib) a.metadata "environment"
                a.environment)) [
                  | inl f ↦ absurd (ground arith)
                  | inr (environment, f) ↦
                      let b : AgentInfo Value = record a {
                        model = model;
                        environment = environment;
                      } in
                      (
                        b,
                        ground (arith, lookup-insert a.id id b r.agents),
                        facts.0,
                        facts.1,
                        facts.2,
                        ground arith,
                        λ k other. ground (arith, lookup-insert a.id k b r.agents),
                      )
                ]
      ]

  -- Where no key is twice in the table, `find_idle_in_swarm` returns exactly the stored agents of
  -- the swarm whose status is idle or online.
  pub find_idle_in_swarm_iff :
      (r : AgentRegistry Value) (swarm_id : String) (a : AgentInfo Value)
      → Once r.agents
      → In a (find_idle_in_swarm r swarm_id) ↔ (
          (k : String) × (lookup k r.agents ≡ some a)
          × (a.swarm_id ≡ swarm_id)
          × ((a.status ≡ idle) ⊎ (a.status ≡ online)))
  unfolding find_idle_in_swarm
  find_idle_in_swarm_iff r swarm_id a once = (
    λ h.
        let (k, e, p) = lookup_of_In-select _ a r.agents once h in
        (k, e, ground arith, ground arith),
    λ h. In-select_of_lookup _ a h.0 r.agents h.1 (ground arith),
  )
