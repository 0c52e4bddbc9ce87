-- ===== src/Agents/Access.antt =====
-- Who may change what.
use swarm_mcp.Prelude.{
  ℕ, String, ◌≡◌, ◌↔◌, ◌⊎◌, refl, inl, inr, Bool, true, some, arith, Option-cases,
}
use swarm_mcp.Dict.{lookup, lookup-insert, lookup-erase}
use swarm_mcp.Json.{JsonLib}
use swarm_mcp.Auth.Role.{Role, coordinator}
use swarm_mcp.Auth.Token.{AuthToken}
use swarm_mcp.Agents.Agent.{AgentInfo, online}
use swarm_mcp.Agents.Registry.{
  AgentRegistry, updated, update_agent, deregister_agent, heartbeat, set_agent_role, admitted,
  on_change,
}
use swarm_mcp.Agents.Pruning.{lookup-prune_stale}
use swarm_mcp.Agents.Invariant.{
  Call, register, update, deregister, beat, change_role, prune, listen, step, Inv, register_cases,
}

module _ {J : Type 0} (r : AgentRegistry J) where
  -- An agent is stored under this id.
  abbrev pub Known : String → Type 0
  Known id = (a : AgentInfo J) × (lookup id r.agents ≡ some a)

  -- `update_agent` answers yes exactly if the agent is known and the requester is a coordinator, of
  -- whatever swarm, or the agent itself.
  pub update_agent_iff :
      (now : ℕ) (is_null : J → Bool) (id : String) (info : AgentInfo J) (token : AuthToken)
      → ((update_agent r now is_null id info token).result ≡ true)
        ↔ (Known id × ((token.role ≡ coordinator) ⊎ (token.agent_id ≡ id)))
  unfolding update_agent
  update_agent_iff now is_null id info token = elim (Option-cases (lookup id r.agents)) [
    | inl e ↦ (λ h. absurd (ground arith), λ k. absurd (ground arith))
    | inr (a, e) ↦ (λ h. ((a, e), ground arith), λ k. ground arith)
  ]

  -- `deregister_agent` answers yes exactly if the agent is known and the requester is a coordinator,
  -- of whatever swarm, or the agent itself.
  pub deregister_agent_iff :
      (id : String) (token : AuthToken)
      → ((deregister_agent r id token).result ≡ true)
        ↔ (Known id × ((token.role ≡ coordinator) ⊎ (token.agent_id ≡ id)))
  unfolding deregister_agent
  deregister_agent_iff id token = elim (Option-cases (lookup id r.agents)) [
    | inl e ↦ (λ h. absurd (ground arith), λ k. absurd (ground arith))
    | inr (a, e) ↦ (λ h. ((a, e), ground arith), λ k. ground arith)
  ]

module _ (lib : JsonLib) where
  open lib use {Value, is_null}

  -- The calls that may give an agent the role `new`.
  abbrev pub MayGrant : Call Value → String → Role → Type 0
  MayGrant (change_role id role token) k new = (id ≡ k) × (role ≡ new) × (token.role ≡ coordinator)
  MayGrant (register env info token) k new = token.role ≡ new
  MayGrant _ k new = ⊥

  -- In a registry that has the invariant, a call that changes the role of a stored agent is a
  -- coordinator's request to change it to the new role, or a registration with a token that has it.
  pub step_role :
      (r : AgentRegistry Value) (c : Call Value) (k : String) (a b : AgentInfo Value)
      → Inv r
      → lookup k r.agents ≡ some a
      → lookup k (step lib r c).agents ≡ some b
      → (a.role ≡ b.role) ⊎ MayGrant c k b.role
  unfolding step update_agent updated deregister_agent heartbeat set_agent_role on_change
  step_role r (register env info token) k a b v e f =
      register_cases lib r v
        (λ q. lookup k q.agents ≡ some b → (a.role ≡ b.role) ⊎ (token.role ≡ b.role)) env info token
        (λ f. inl (ground arith))
        (λ model environment f.
          let n = admitted lib r env info token in
          let granted : n.role ≡ token.role = unfold admitted in refl in
          ground (
            arith,
            lookup-insert n.id k (record n { model = model; environment = environment }) r.agents,
          ))
        f
  step_role r (update now id info token) k a b v e f = elim (Option-cases (lookup id r.agents)) [
    | inl g ↦ inl (ground arith)
    | inr (o, g) ↦ inl (ground (arith, lookup-insert id k (updated now is_null info o) r.agents))
  ]
  step_role r (deregister id token) k a b v e f = inl (ground (arith, lookup-erase id k r.agents))
  step_role r (beat now id) k a b v e f = elim (Option-cases (lookup id r.agents)) [
    | inl g ↦ inl (ground arith)
    | inr (o, g) ↦ inl (
        ground
          (arith, lookup-insert id k (record o { last_heartbeat = now; status = online }) r.agents))
  ]
  step_role r (change_role id role token) k a b v e f = elim (Option-cases (lookup id r.agents)) [
    | inl g ↦ inl (ground arith)
    | inr (o, g) ↦ ground (arith, lookup-insert id k (record o { role = role }) r.agents)
  ]
  step_role r (prune now timeout) k a b v e f =
      let found = (lookup-prune_stale r now timeout v.once).0 k in inl (ground arith)
  step_role r listen k a b v e f = inl (ground arith)
