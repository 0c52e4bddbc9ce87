-- ===== src/Agents/Invariant.antt =====
-- Any sequence of calls on a new registry keeps the table well formed.
use swarm_mcp.Prelude.{
  ℕ, String, ◌≡◌, refl, ◌∙◌, inl, inr, none, some, List, [], ◌∷◌, arith, Option-cases,
}
use swarm_mcp.Dict.{
  lookup, insert, erase, Every, Every-nil, Every-insert, Every-erase, Once, Once-insert, Once-erase,
}
use swarm_mcp.Json.{JsonLib}
use swarm_mcp.Auth.Role.{Role}
use swarm_mcp.Auth.Token.{AuthToken}
use swarm_mcp.Agents.Agent.{
  AgentInfo, ModelInfo, EnvironmentInfo, object_member, model_from_json, environment_from_json,
}
use swarm_mcp.Agents.Registry.{
  AgentRegistry, Environ, registry, on_change, updated, update_agent, deregister_agent, heartbeat,
  set_agent_role, prune_stale, admitted, register_agent,
}
use swarm_mcp.Agents.Pruning.{lookup-prune_stale}

pub data Call (J : Type 0) : Type 0 where
  register : Environ → AgentInfo J → AuthToken → Call J
  update : (now : ℕ) → String → AgentInfo J → AuthToken → Call J
  deregister : String → AuthToken → Call J
  beat : (now : ℕ) → String → Call J
  change_role : String → Role → AuthToken → Call J
  prune : (now timeout : ℕ) → Call J
  listen : Call J

-- Every agent lies under its own id and belongs to the server's swarm, and no id is there twice.
pub record Inv {J : Type 0} (r : AgentRegistry J) : Type 0 where
  pub sound : Every (λ k (a : AgentInfo J). (a.id ≡ k) × (a.swarm_id ≡ r.swarm_id)) r.agents
  pub once : Once r.agents

module _ (lib : JsonLib) where
  open lib use {Value, is_null}

  -- A registration that throws leaves the registry as it was.
  unfoldable pub step : AgentRegistry Value → Call Value → AgentRegistry Value
  step r (register env info token) = elim (register_agent lib r env info token) [
    | none ↦ r
    | some outcome ↦ outcome.state
  ]
  step r (update now id info token) = (update_agent r now is_null id info token).state
  step r (deregister id token) = (deregister_agent r id token).state
  step r (beat now id) = (heartbeat r now id).state
  step r (change_role id role token) = (set_agent_role r id role token).state
  step r (prune now timeout) = (prune_stale r now timeout).state
  step r listen = on_change r

  unfoldable pub run : AgentRegistry Value → List (Call Value) → AgentRegistry Value
  unfolding step
  run r [] = r
  run r (c ∷ cs) = run (step r c) cs

  module _ (r : AgentRegistry Value) (v : Inv r) where
    Inv-insert :
        (k : String) (a : AgentInfo Value)
        → a.id ≡ k
        → a.swarm_id ≡ r.swarm_id
        → Inv (record r { agents = insert k a r.agents })
    Inv-insert k a e s = record {
      sound =
          Every-insert (λ k (a : AgentInfo Value). (a.id ≡ k) × (a.swarm_id ≡ r.swarm_id)) k a
            r.agents (e, s) v.sound;
      once = Once-insert k a r.agents v.once;
    }

    Inv-erase : (k : String) → Inv (record r { agents = erase k r.agents })
    Inv-erase k = record {
      sound =
          Every-erase (λ k (a : AgentInfo Value). (a.id ≡ k) × (a.swarm_id ≡ r.swarm_id)) k r.agents
            v.sound;
      once = Once-erase k r.agents v.once;
    }

    Inv-prune : (now timeout : ℕ) → Inv (prune_stale r now timeout).state
    unfolding prune_stale
    Inv-prune now timeout =
        let (found, once) = lookup-prune_stale r now timeout v.once in
        record {
          sound = λ k a e. elim (Option-cases (lookup k r.agents)) [
            | inl gone ↦ absurd (ground (arith, found k))
            | inr (b, there) ↦ let ok = v.sound k b there in ground (arith, found k)
          ];
          once = once;
        }

    -- A registration is refused or throws, or it stores what `admitted` says, with a model and an
    -- environment that the metadata may change.
    pub register_cases {ℓ} :
        (P : AgentRegistry Value → Type ℓ) (env : Environ) (info : AgentInfo Value)
        (token : AuthToken)
        → P r
        → ((model : ModelInfo) (environment : EnvironmentInfo)
            → let a = admitted lib r env info token in
              P (record r {
                agents =
                    insert a.id (record a { model = model; environment = environment }) r.agents;
              }))
        → P (step r (register env info token))
    unfolding step register_agent
    register_cases P env info token same added =
        let a = admitted lib r env info token in
        elim (Option-cases (object_member lib (model_from_json lib) a.metadata "model" a.model)) [
          | inl e ↦ ground arith
          | inr (model, e) ↦
              elim (Option-cases (
                object_member lib (environment_from_json lib) a.metadata "environment"
                  a.environment)) [
                    | inl f ↦ ground arith
                    | inr (environment, f) ↦ let stored = added model environment in ground arith
                  ]
        ]

    Inv-register :
        (env : Environ) (info : AgentInfo Value) (token : AuthToken)
        → Inv (step r (register env info token))
    unfolding admitted
    Inv-register env info token =
        register_cases Inv env info token v (λ model environment. Inv-insert _ _ refl refl)

  step-Inv : (r : AgentRegistry Value) (c : Call Value) → Inv r → Inv (step r c)
  unfolding step update_agent deregister_agent heartbeat set_agent_role on_change
  step-Inv r (register env info token) v = Inv-register r v env info token
  step-Inv r (update now id info token) v = elim (Option-cases (lookup id r.agents)) [
    | inl e ↦ ground arith
    | inr (a, e) ↦
        let ok = v.sound id a e in
        let b = updated now is_null info a in
        let same : (b.id ≡ a.id) × (b.swarm_id ≡ a.swarm_id) = unfold updated in (refl, refl) in
        let stored = Inv-insert r v id b (same.0 ∙ ok.0) (same.1 ∙ ok.1) in ground arith
  ]
  step-Inv r (deregister id token) v = let gone = Inv-erase r v id in ground arith
  step-Inv r (beat now id) v = elim (Option-cases (lookup id r.agents)) [
    | inl e ↦ rw (e, step, heartbeat) v
    | inr (a, e) ↦
        let ok = v.sound id a e in rw (e, step, heartbeat) (Inv-insert r v id _ ok.0 ok.1)
  ]
  step-Inv r (change_role id role token) v = elim (Option-cases (lookup id r.agents)) [
    | inl e ↦ ground arith
    | inr (a, e) ↦
        let ok = v.sound id a e in
        let stored = Inv-insert r v id (record a { role = role }) ok.0 ok.1 in ground arith
  ]
  step-Inv r (prune now timeout) v = Inv-prune r v now timeout
  step-Inv r listen v = record { sound = v.sound; once = v.once }

  run-Inv : (r : AgentRegistry Value) (cs : List (Call Value)) → Inv r → Inv (run r cs)
  unfolding run
  run-Inv r [] v = v
  run-Inv r (c ∷ cs) v = run-Inv (step r c) cs (step-Inv r c v)

  swarm_id-step :
      (r : AgentRegistry Value) (c : Call Value) → Inv r → (step r c).swarm_id ≡ r.swarm_id
  unfolding step update_agent deregister_agent heartbeat set_agent_role on_change prune_stale
  swarm_id-step r (register env info token) v =
      register_cases r v (λ q. q.swarm_id ≡ r.swarm_id) env info token refl (λ m e. refl)
  swarm_id-step r c v = ground arith

  swarm_id-run :
      (r : AgentRegistry Value) (cs : List (Call Value)) → Inv r → (run r cs).swarm_id ≡ r.swarm_id
  unfolding run
  swarm_id-run r [] v = refl
  swarm_id-run r (c ∷ cs) v = swarm_id-run (step r c) cs (step-Inv r c v) ∙ swarm_id-step r c v

  -- After any calls on a new registry each agent lies under its own id, no id is there twice, and
  -- every agent belongs to the swarm that the registry was made for.
  pub run-registry-Inv :
      (swarm_id : String) (cs : List (Call Value))
      → Inv (run (registry swarm_id) cs) × ((run (registry swarm_id) cs).swarm_id ≡ swarm_id)
  unfolding registry
  run-registry-Inv swarm_id cs =
      let new : Inv (registry {J = Value} swarm_id) = record { sound = Every-nil _; once = tt } in
      (run-Inv (registry swarm_id) cs new, swarm_id-run (registry swarm_id) cs new)
