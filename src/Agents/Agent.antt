-- ===== src/Agents/Agent.antt =====
-- `AgentInfo` and what stands in it. A point in time is its number of nanoseconds since the epoch.
use swarm_mcp.Prelude.{ℕ, String, List, Option, none, some, [], if◌then◌else◌}
use swarm_mcp.Int.{ℤ, pos}
use swarm_mcp.Json.{JsonLib, ◌>>=◌}
use swarm_mcp.Auth.Role.{Role}

pub data AgentStatus : Type 0 where
  online busy idle offline : AgentStatus

pub AgentStatus-discrete : Discrete AgentStatus
AgentStatus-discrete = hlevel

pub record ModelInfo : Type 0 where
  pub provider : String
  pub model_id : String
  pub model_family : String
  pub context_window : ℤ
  pub max_output_tokens : ℤ

pub record EnvironmentInfo : Type 0 where
  pub runtime : String
  pub os : String
  pub cpu_cores : ℤ
  pub memory_mb : ℤ
  pub gpu : String
  pub supported_languages : List String

pub record AgentInfo (J : Type 0) : Type 0 where
  pub id : String
  pub name : String
  pub platform : String
  pub hostname : String
  pub swarm_id : String
  pub role : Role
  pub capabilities : List String
  pub status : AgentStatus
  pub registered_at : ℕ
  pub last_heartbeat : ℕ
  pub metadata : J
  pub model : ModelInfo
  pub environment : EnvironmentInfo

module _ (lib : JsonLib) where
  open lib use {Value, is_object, member, as_text, as_texts, as_int, value}

  unfoldable pub model_from_json : Value → Option ModelInfo
  model_from_json j = do
    provider ← value as_text j "provider" ""
    model_id ← value as_text j "model_id" ""
    model_family ← value as_text j "model_family" ""
    context_window ← value as_int j "context_window" (pos 0)
    max_output_tokens ← value as_int j "max_output_tokens" (pos 0)
    some (record {
      provider = provider;
      model_id = model_id;
      model_family = model_family;
      context_window = context_window;
      max_output_tokens = max_output_tokens;
    })

  unfoldable pub environment_from_json : Value → Option EnvironmentInfo
  environment_from_json j = do
    runtime ← value as_text j "runtime" ""
    os ← value as_text j "os" ""
    cpu_cores ← value as_int j "cpu_cores" (pos 0)
    memory_mb ← value as_int j "memory_mb" (pos 0)
    gpu ← value as_text j "gpu" ""
    supported_languages ← value as_texts j "supported_languages" []
    some (record {
      runtime = runtime;
      os = os;
      cpu_cores = cpu_cores;
      memory_mb = memory_mb;
      gpu = gpu;
      supported_languages = supported_languages;
    })

  -- `j.contains(key) && j[key].is_object()`, and then `read(j[key])`; else the old value stays.
  unfoldable pub object_member : {A : Type 0} → (Value → Option A) → Value → String → A → Option A
  object_member read j key old = elim (member j key) [
    | none ↦ some old
    | some v ↦ if is_object v then read v else some old
  ]
