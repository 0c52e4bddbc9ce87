-- ===== src/Agents/Examples.antt =====
-- The theorems on agents at concrete inputs, and tests of the definitions.
use swarm_mcp.Prelude.{String, ◌≡◌, ◌⊎◌, refl, true, some, List, [], ◌∷◌, arith, String_discrete}
use swarm_mcp.Dict.{lookup, insert, Every-nil, Every-insert}
use swarm_mcp.Int.{pos}
use swarm_mcp.Json.Values.{json_values, Value}
use swarm_mcp.Int.{pos}
use swarm_mcp.Json.Values
use swarm_mcp.Auth.Role.{Role, worker, coordinator}
use swarm_mcp.Auth.Token.{AuthToken}
use swarm_mcp.Agents.Agent.{AgentInfo, ModelInfo, EnvironmentInfo, online, busy, object_member}
use swarm_mcp.Agents.Registry.{
  AgentRegistry, Environ, registry, set_agent_role, admitted, register_agent, commit, notify,
}
use swarm_mcp.Agents.Invariant.{
  Call, register, beat, change_role, prune, listen, step, run, Inv, run-registry-Inv,
}
use swarm_mcp.Agents.Access.{MayGrant, step_role}

abbrev no_model : ModelInfo
no_model = record {
  provider = "";
  model_id = "";
  model_family = "";
  context_window = pos 0;
  max_output_tokens = pos 0;
}

abbrev no_environment : EnvironmentInfo
no_environment = record {
  runtime = "";
  os = "";
  cpu_cores = pos 0;
  memory_mb = pos 0;
  gpu = "";
  supported_languages = [];
}

-- What an agent of another swarm says of itself: a coordinator.
abbrev info : AgentInfo Value
info = record {
  id = "";
  name = "Ann";
  platform = "";
  hostname = "";
  swarm_id = "other";
  role = coordinator;
  capabilities = [];
  status = busy;
  registered_at = 0;
  last_heartbeat = 0;
  metadata = Values.null;
  model = no_model;
  environment = no_environment;
}

abbrev token : String → Role → AuthToken
token agent_id role = record {
  token_id = "u1";
  agent_id = agent_id;
  role = role;
  swarm_id = "s";
  issued_at = 0;
  expires_at = 60000000000;
  token_string = "";
}

abbrev env : Environ
env = record { uuid = "u7"; hostname = "host"; platform = "linux"; now = 3; now' = 4 }

abbrev ann : AgentInfo Value
ann = record info {
  id = "ann";
  platform = "linux";
  hostname = "host";
  swarm_id = "s";
  role = worker;
  status = online;
  registered_at = 3;
  last_heartbeat = 4;
}

abbrev before : AgentRegistry Value
before = record { swarm_id = "s"; agents = []; listening = true }

abbrev after : AgentRegistry Value
after = record before { agents = ("ann", ann) ∷ [] }

-- A worker's token makes a worker of it.
registered :
    register_agent json_values before env info (token "ann" worker)
    ≡ some (record { state = after; result = "ann"; sent = ("agent.registered", ann) ∷ [] })
unfolding register_agent admitted object_member commit notify insert String_discrete
registered = refl

after-Inv : Inv after
unfolding insert lookup
after-Inv = record {
  sound =
      Every-insert (λ k (a : AgentInfo Value). (a.id ≡ k) × (a.swarm_id ≡ "s")) "ann" ann []
        (refl, refl) (Every-nil _);
  once = (refl, tt);
}

abbrev calls : List (Call Value)
calls = listen ∷ register env info (token "ann" worker) ∷ beat 9 "ann" ∷ prune 10 60 ∷ []

run-registry-Inv_example :
    Inv (run json_values (registry "s") calls)
    × ((run json_values (registry "s") calls).swarm_id ≡ "s")
run-registry-Inv_example = run-registry-Inv json_values "s" calls

promoted :
    lookup "ann"
      (step json_values after (change_role "ann" coordinator (token "bob" coordinator))).agents
    ≡ some (record ann { role = coordinator })
unfolding step set_agent_role commit lookup insert String_discrete
promoted = ground arith

step_role_example :
    (worker ≡ coordinator)
    ⊎ MayGrant json_values
        (change_role "ann" coordinator (token "bob" coordinator))
        "ann"
        coordinator
unfolding lookup String_discrete
step_role_example =
    step_role json_values after (change_role "ann" coordinator (token "bob" coordinator)) "ann" ann
      (record ann { role = coordinator }) after-Inv refl promoted
