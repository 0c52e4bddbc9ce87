-- ===== src/Mqtt/Examples.antt =====
-- The theorems on MQTT at concrete inputs, and tests of the definitions.
use swarm_mcp.Prelude.{
  List, In, String, ◌≡◌, ◌↔◌, refl, true, Option, [], ◌∷◌, In, arith, String_discrete, text_ne,
}
use swarm_mcp.Dict.{lookup}
use swarm_mcp.Text.{codes, starts_with}
use swarm_mcp.Int.{pos}
use swarm_mcp.Json.Values.{Value, json_values}
use swarm_mcp.Json.Values
use swarm_mcp.Auth.Role.{coordinator, worker, observer, role_to_str}
use swarm_mcp.Mqtt.Acl.{default_rule, MqttAclRule}
use swarm_mcp.Mqtt.Topics.{topic_matches, Level, IsLevels, has_code, Covers, topic_matches_iff}
use swarm_mcp.Mqtt.Envelope.{
  MqttEnvelope, verified, sign, signing_input, at, payload_of, read_envelope, envelope_to_json,
  verify, verify_json, verify_envelope, is_fresh,
}
use swarm_mcp.Mqtt.Signing.{verify-sign}
use swarm_mcp.Mqtt.Client.{
  SecureMqttClient, delivered, accepts, dispatch, receive, below, on_raw_message,
}
use swarm_mcp.Mqtt.Delivered.{IsTimely, on_raw_message_lem}
use swarm_mcp.Auth.Provider.{verify_sig}

abbrev open_tasks : MqttAclRule
open_tasks = record {
  topic_prefix = "mcp-collab/s/tasks";
  allow_roles = observer ∷ [];
  subscribe_roles = [];
  allow_subscribe = true;
}

abbrev tasks_rule : MqttAclRule
tasks_rule = default_rule "mcp-collab/s/tasks" (coordinator ∷ worker ∷ [])

topic_matches_iff_example : (topic_matches (codes "a/+/c") (codes "a/b/c") ≡ true) ↔ (
    In b'+' (codes "a/+/c")
    × (fs : List Level) × (ts : List Level) × IsLevels fs (codes "a/+/c")
    × IsLevels ts (codes "a/b/c")
    × Covers fs ts)
topic_matches_iff_example = topic_matches_iff (codes "a/+/c") (codes "a/b/c")

abbrev toy_hmac : String → String → String
toy_hmac message secret = "ab12"

abbrev dump : Value → String
dump v = "{}"

abbrev env : MqttEnvelope Value
env = record {
  envelope_version = "swarm-mcp/v1";
  sender = "ann";
  swarm_id = "s";
  role = "observer";
  timestamp = pos 1000;
  payload = Values.nil;
  signature = "ab12";
}

abbrev fields_of : MqttEnvelope Value → Value
fields_of e = Values.of_fields (
    ("envelope", Values.text e.envelope_version)
    ∷ ("sender", Values.text e.sender)
    ∷ ("swarm", Values.text e.swarm_id)
    ∷ ("role", Values.text e.role)
    ∷ ("timestamp", Values.signed e.timestamp)
    ∷ ("payload", e.payload)
    ∷ ("signature", Values.text e.signature)
    ∷ [])

-- The text "a" is Ann's message, "b" the same with the role of a coordinator, "c" has no fields.
abbrev parse : String → Option Value
parse t = lookup t (
    ("a", fields_of env)
    ∷ ("b", fields_of (record env { role = "coordinator" }))
    ∷ ("c", Values.of_fields (("envelope", Values.text "swarm-mcp/v1") ∷ []))
    ∷ [])

received : verify json_values dump parse toy_hmac "a" "key" ≡ verified env
unfolding verify verify_json verify_envelope read_envelope at payload_of verify_sig String_discrete
    lookup
received = refl

verify-sign_example :
    verify json_values dump parse toy_hmac "a" "key"
    ≡ verified (sign json_values dump parse toy_hmac 1000 "ann" "s" observer Values.nil "key")
unfolding envelope_to_json sign role_to_str String_discrete lookup
verify-sign_example =
    verify-sign json_values dump parse toy_hmac "a" "key" 1000 "ann" "s" observer Values.nil
      (omega arith) refl

abbrev client : SecureMqttClient
client = record { swarm_id = "s"; swarm_secret = "key"; max_message_age = 60; filters = "t/#" ∷ [] }

delivery :
    on_raw_message json_values dump parse toy_hmac client 2000
      (record { topic = "t/1"; payload = "a" })
    ≡ delivered "t/#" env
unfolding on_raw_message receive dispatch accepts below is_fresh verify verify_json verify_envelope
    read_envelope at payload_of verify_sig String_discrete lookup starts_with topic_matches has_code
delivery = refl

on_raw_message_lem_example :
    In "t/#" client.filters
    × (accepts "t/#" "t/1" ≡ true)
    × (env.signature
        ≡ toy_hmac
            (signing_input json_values dump parse toy_hmac "ann" "s" (pos 1000) Values.nil)
            "key")
    × (env.swarm_id ≡ client.swarm_id)
    × IsTimely 2000 client.max_message_age (pos 1000)
unfolding String_discrete
on_raw_message_lem_example =
    on_raw_message_lem json_values dump parse toy_hmac client 2000
      (record { topic = "t/1"; payload = "a" }) "t/#" env (text_ne "key" "" refl) delivery
