-- ===== src/Agents/Registry.antt =====
-- `AgentRegistry`. Each method holds `mutex_` while it works on the table, so a call is one step.
-- The clock, a generated UUID and what the platform says of itself are arguments.
use swarm_mcp.Prelude.{
  ℕ, ◌-◌, ◌/◌, String, Bool, true, false, not, ◌&&◌, ◌||◌, Option, none, some, List, [], ◌∷◌, map,
  Effect, contains, ◌==◌, if◌then◌else◌, leb, decides, length,
}
use swarm_mcp.Dict.{Dict, lookup, insert, erase, select}
use swarm_mcp.Json.{JsonLib, ◌>>=◌}
use swarm_mcp.Text.{◌=ᵇ◌}
use swarm_mcp.Auth.Role.{Role, coordinator, Role-discrete}
use swarm_mcp.Auth.Token.{AuthToken}
use swarm_mcp.Agents.Agent.{
  AgentStatus, online, idle, AgentStatus-discrete, AgentInfo, model_from_json,
  environment_from_json, object_member,
}

-- `listening`: a callback is registered.
pub record AgentRegistry (J : Type 0) : Type 0 where
  pub swarm_id : String
  pub agents : Dict (AgentInfo J)
  pub listening : Bool

-- What the platform headers answer, and the clock and the UUID at a call.
pub record Environ : Type 0 where
  pub uuid : String
  pub hostname : String
  pub platform : String
  pub now : ℕ
  pub now' : ℕ

abbrev pub Outcome : Type 0 → Type 0 → Type 0
Outcome J A = Effect (AgentRegistry J) A (String × AgentInfo J)

module _ {J : Type 0} where
  unfoldable pub registry : String → AgentRegistry J
  registry swarm_id = record { swarm_id = swarm_id; agents = []; listening = false }

  unfoldable pub on_change : AgentRegistry J → AgentRegistry J
  on_change r = record r { listening = true }

  unfoldable pub notify : AgentRegistry J → String → AgentInfo J → List (String × AgentInfo J)
  notify r event agent = if r.listening then (event, agent) ∷ [] else []

  unfoldable pub refuse : {A : Type 0} → AgentRegistry J → A → Outcome J A
  refuse r a = record { state = r; result = a; sent = [] }

  -- The table gets `agent` at `id`, and the callback is told of `event`.
  unfoldable pub commit :
      {A : Type 0} → AgentRegistry J → String → AgentInfo J → String → A → Outcome J A
  unfolding notify
  commit r id agent event a = record {
    state = record r { agents = insert id agent r.agents };
    result = a;
    sent = notify r event agent;
  }

  unfoldable pub can_modify : AgentRegistry J → AuthToken → String → Bool
  can_modify r token target =
      if decides (Role-discrete token.role coordinator) && token.swarm_id == r.swarm_id
      then true
      else token.agent_id == target

  -- An empty name or list and a null value leave what is there.
  unfoldable pub updated : ℕ → (is_null : J → Bool) → AgentInfo J → AgentInfo J → AgentInfo J
  updated now is_null info old = record old {
    name = if info.name == "" then old.name else info.name;
    capabilities = elim info.capabilities [ [] ↦ old.capabilities | c ∷ cs ↦ info.capabilities ];
    metadata = if is_null info.metadata then old.metadata else info.metadata;
    status = info.status;
    last_heartbeat = now;
  }

  unfoldable pub update_agent :
      AgentRegistry J → ℕ → (is_null : J → Bool) → String → AgentInfo J → AuthToken → Outcome J Bool
  unfolding can_modify refuse commit
  update_agent r now is_null id info token =
      if not (can_modify r token id) && not (decides (Role-discrete token.role coordinator))
      then refuse r false
      else elim (lookup id r.agents) [
        | none ↦ refuse r false
        | some old ↦ commit r id (updated now is_null info old) "agent.updated" true
      ]

  unfoldable pub deregister_agent : AgentRegistry J → String → AuthToken → Outcome J Bool
  unfolding refuse notify
  deregister_agent r id token =
      if not (decides (Role-discrete token.role coordinator)) && not (token.agent_id == id)
      then refuse r false
      else elim (lookup id r.agents) [
        | none ↦ refuse r false
        | some agent ↦ record {
          state = record r { agents = erase id r.agents };
          result = true;
          sent = notify r "agent.deregistered" agent;
        }
      ]

  -- No callback is told of a heartbeat.
  unfoldable pub heartbeat : AgentRegistry J → ℕ → String → Outcome J Bool
  unfolding refuse
  heartbeat r now id = elim (lookup id r.agents) [
    | none ↦ refuse r false
    | some agent ↦
        refuse
          (record r {
            agents = insert id (record agent { last_heartbeat = now; status = online }) r.agents;
          })
          true
  ]

  unfoldable pub set_agent_role : AgentRegistry J → String → Role → AuthToken → Outcome J Bool
  unfolding refuse commit
  set_agent_role r id new_role requester =
      if not (decides (Role-discrete requester.role coordinator))
      then refuse r false
      else elim (lookup id r.agents) [
        | none ↦ refuse r false
        | some agent ↦ commit r id (record agent { role = new_role }) "agent.role_changed" true
      ]

  -- Whole seconds since the last heartbeat, `timeout` or more of them. A heartbeat in the future
  -- counts as zero seconds if it is less than a second away, and else as a negative number.
  unfoldable pub stale : ℕ → ℕ → AgentInfo J → Bool
  stale now timeout agent =
      if leb agent.last_heartbeat now
      then leb timeout ((now - agent.last_heartbeat) / 1000000000)
      else timeout =ᵇ 0 && (agent.last_heartbeat - now) / 1000000000 =ᵇ 0

  -- The loop: what stays in the table, and the agents that were erased.
  unfoldable pub prune_loop : ℕ → ℕ → Dict (AgentInfo J) → Dict (AgentInfo J) × List (AgentInfo J)
  prune_loop now timeout [] = ([], [])
  prune_loop now timeout ((k, agent) ∷ m) =
      let rest = prune_loop now timeout m in
      if stale now timeout agent then (rest.0, agent ∷ rest.1) else ((k, agent) ∷ rest.0, rest.1)

  unfoldable pub prune_stale : AgentRegistry J → ℕ → ℕ → Outcome J ℕ
  prune_stale r now timeout =
      let (kept, pruned) = prune_loop now timeout r.agents in
      record {
        state = record r { agents = kept };
        result = length pruned;
        sent = if r.listening then map (λ a. ("agent.pruned", a)) pruned else [];
      }

  unfoldable pub get_agent : AgentRegistry J → String → Option (AgentInfo J)
  get_agent r id = lookup id r.agents

  unfoldable pub is_available : AgentInfo J → Bool
  is_available a =
      decides (AgentStatus-discrete a.status idle) || decides (AgentStatus-discrete a.status online)

  unfoldable pub list_agents : AgentRegistry J → Option AgentStatus → List (AgentInfo J)
  list_agents r filter =
      select (λ a. elim filter [ none ↦ true | some s ↦ decides (AgentStatus-discrete a.status s) ])
        r.agents

  unfoldable pub list_swarm_agents :
      AgentRegistry J → String → Option AgentStatus → List (AgentInfo J)
  list_swarm_agents r swarm_id filter =
      select
        (λ a.
          if not (a.swarm_id == swarm_id)
          then false
          else elim filter [ none ↦ true | some s ↦ decides (AgentStatus-discrete a.status s) ])
        r.agents

  unfoldable pub find_by_capability : AgentRegistry J → String → List (AgentInfo J)
  find_by_capability r capability = select (λ a. contains a.capabilities capability) r.agents

  unfoldable pub find_idle : AgentRegistry J → List (AgentInfo J)
  unfolding is_available
  find_idle r = select is_available r.agents

  unfoldable pub find_idle_in_swarm : AgentRegistry J → String → List (AgentInfo J)
  unfolding is_available
  find_idle_in_swarm r swarm_id =
      select (λ a. if not (a.swarm_id == swarm_id) then false else is_available a) r.agents

  unfoldable pub find_by_role : AgentRegistry J → Role → List (AgentInfo J)
  find_by_role r role = select (λ a. decides (Role-discrete a.role role)) r.agents

  unfoldable pub count : AgentRegistry J → ℕ
  count r = length r.agents

  unfoldable pub swarm_count : AgentRegistry J → String → ℕ
  swarm_count r swarm_id = length (select (λ a. a.swarm_id == swarm_id) r.agents)

module _ (lib : JsonLib) where
  open lib use {Value}

  -- The fields that the server fills in, whatever the agent says of itself.
  unfoldable pub admitted :
      AgentRegistry Value → Environ → AgentInfo Value → AuthToken → AgentInfo Value
  admitted r env info token = record info {
    id =
        if info.id == ""
        then (if token.agent_id == "" then env.uuid else token.agent_id)
        else info.id;
    hostname = if info.hostname == "" then env.hostname else info.hostname;
    platform = if info.platform == "" then env.platform else info.platform;
    swarm_id = r.swarm_id;
    role = token.role;
    registered_at = env.now;
    last_heartbeat = env.now';
    status = online;
  }

  -- `none`: the metadata made `from_json` throw, and the table stays as it was.
  unfoldable pub register_agent :
      AgentRegistry Value → Environ → AgentInfo Value → AuthToken → Option (Outcome Value String)
  unfolding refuse commit
  register_agent r env info token =
      if not (token.swarm_id == r.swarm_id) && not (r.swarm_id == "")
      then some (refuse r "")
      else do
        let agent = admitted r env info token
        model ← object_member lib (model_from_json lib) agent.metadata "model" agent.model
        environment ←
            object_member lib (environment_from_json lib) agent.metadata "environment"
              agent.environment
        some (
            commit r agent.id (record agent { model = model; environment = environment })
              "agent.registered" agent.id)
