-- ===== src/Mqtt/Acl.antt =====
-- `MqttTopicAuth`: which role may publish to a topic, and subscribe to it.
use Prim.Native.String.{◌++◌}
use swarm_mcp.Prelude.{
  String, Bool, true, false, ◌||◌, List, [], ◌∷◌, ◌++◌ as ◌⧺◌, ◌==◌, decides, if◌then◌else◌,
}
use swarm_mcp.Text.{codes, starts_with}
use swarm_mcp.Auth.Role.{Role, coordinator, worker, Role-discrete}

-- A set of roles is the list of its elements.
pub record MqttAclRule : Type 0 where
  pub topic_prefix : String
  pub allow_roles : List Role
  pub subscribe_roles : List Role
  pub allow_subscribe : Bool

pub record MqttTopicAuth : Type 0 where
  pub swarm_prefix : String
  pub rules : List MqttAclRule

unfoldable pub has_role : List Role → Role → Bool
has_role [] r = false
has_role (q ∷ qs) r = decides (Role-discrete q r) || has_role qs r

-- topic.starts_with(prefix) || topic == prefix
unfoldable pub under : String → String → Bool
under prefix topic = starts_with (codes topic) (codes prefix) || topic == prefix

unfoldable pub default_rule : String → List Role → MqttAclRule
default_rule prefix roles = record {
  topic_prefix = prefix;
  allow_roles = roles;
  subscribe_roles = [];
  allow_subscribe = true;
}

unfoldable pub default_rules : String → List MqttAclRule
unfolding default_rule
default_rules prefix =
    default_rule (prefix ++ "tasks") (coordinator ∷ worker ∷ [])
    ∷ default_rule (prefix ++ "events") (coordinator ∷ worker ∷ [])
    ∷ default_rule (prefix ++ "context") (coordinator ∷ worker ∷ [])
    ∷ default_rule (prefix ++ "git") (coordinator ∷ worker ∷ [])
    ∷ default_rule (prefix ++ "agents") (coordinator ∷ worker ∷ [])
    ∷ default_rule (prefix ++ "broadcast") (coordinator ∷ worker ∷ [])
    ∷ default_rule (prefix ++ "admin") (coordinator ∷ [])
    ∷ []

unfoldable pub prefix_of : String → String
prefix_of swarm_id = "mcp-collab/" ++ ((if swarm_id == "" then "default" else swarm_id) ++ "/")

unfoldable pub mqtt_topic_auth : String → MqttTopicAuth
mqtt_topic_auth swarm_id = record {
  swarm_prefix = prefix_of swarm_id;
  rules = default_rules (prefix_of swarm_id);
}

-- The first rule whose prefix the topic has decides.
unfoldable pub publish_loop : List MqttAclRule → Role → String → Bool
publish_loop [] role topic = false
publish_loop (rule ∷ rules) role topic =
    let rest = publish_loop rules role topic in
    if under rule.topic_prefix topic then has_role rule.allow_roles role else rest

unfoldable pub can_publish : MqttTopicAuth → Role → String → Bool
can_publish auth role topic =
    if decides (Role-discrete role coordinator) then true else publish_loop auth.rules role topic

-- `otherwise` is the answer where no rule decides.
unfoldable pub subscribe_loop : Bool → List MqttAclRule → Role → String → Bool
subscribe_loop otherwise [] role topic = otherwise
subscribe_loop otherwise (rule ∷ rules) role topic =
    let rest = subscribe_loop otherwise rules role topic in
    if under rule.topic_prefix topic
    then elim rule.subscribe_roles [
      | [] ↦ rule.allow_subscribe
      | r ∷ rs ↦ has_role rule.subscribe_roles role
    ]
    else rest

unfoldable pub can_subscribe : MqttTopicAuth → Role → String → Bool
can_subscribe auth role topic =
    if decides (Role-discrete role coordinator)
    then true
    else subscribe_loop (under (auth.swarm_prefix ++ "#") topic) auth.rules role topic

unfoldable pub add_rule : MqttTopicAuth → MqttAclRule → MqttTopicAuth
add_rule auth rule = record auth { rules = auth.rules ⧺ rule ∷ [] }
