-- ===== src/Mqtt/Client.antt =====
-- `SecureMqttClient::on_raw_message`: which callback gets a message. Sending and connecting are the
-- MQTT library's, and not modelled.
use swarm_mcp.Prelude.{
  ℕ, String, Bool, false, not, ◌&&◌, ◌||◌, Option, none, some, List, [], ◌∷◌, ◌==◌, if◌then◌else◌,
}
use swarm_mcp.Text.{codes, starts_with, ◌=ᵇ◌}
use swarm_mcp.Int.{pos}
use swarm_mcp.Json.{JsonLib, ◌>>=◌}
use swarm_mcp.Mqtt.Topics.{topic_matches}
use swarm_mcp.Mqtt.Envelope.{MqttEnvelope, rejected, threw, verified, is_fresh, verify}

-- `filters`: the keys of `verified_callbacks_`, in the order of iteration.
pub record SecureMqttClient : Type 0 where
  pub swarm_id : String
  pub swarm_secret : String
  pub max_message_age : ℕ
  pub filters : List String

pub record MqttMessage : Type 0 where
  pub topic : String
  pub payload : String

-- What becomes of a message: the callback of `filter` is called, nobody is, or a `json::type_error`
-- leaves the handler.
pub data Delivery (J : Type 0) : Type 0 where
  dropped escaped : Delivery J
  delivered : (filter : String) → MqttEnvelope J → Delivery J

-- s.substr(0, s.size() - 2) of a text that ends with "/#".
unfoldable pub below : List ℕ → Option (List ℕ)
below [] = none
below (a ∷ []) = none
below (a ∷ b ∷ []) = if a =ᵇ b'/' && b =ᵇ b'#' then some [] else none
below (a ∷ b ∷ c ∷ s) = elim (below (b ∷ c ∷ s)) [ none ↦ none | some p ↦ some (a ∷ p) ]

unfoldable pub accepts : String → String → Bool
accepts filter topic =
    filter == topic
    || filter == "#"
    || elim (below (codes filter)) [ none ↦ false | some p ↦ starts_with (codes topic) p ]
    || topic_matches (codes filter) (codes topic)

unfoldable pub dispatch : {J : Type 0} → List String → String → MqttEnvelope J → Delivery J
unfolding accepts
dispatch [] topic env = dropped
dispatch (filter ∷ filters) topic env =
    let rest = dispatch filters topic env in
    if accepts filter topic then delivered filter env else rest

-- Replay protection, isolation of swarms, and the callbacks.
unfoldable pub receive :
    {J : Type 0} → SecureMqttClient → (now : ℕ) → String → MqttEnvelope J → Delivery J
unfolding dispatch
receive c now topic env =
    if not (is_fresh env now c.max_message_age)
    then dropped
    else if not (env.swarm_id == c.swarm_id)
    then dropped
    else dispatch c.filters topic env

module _ (lib : JsonLib) (dump : lib.Value → String) (parse : String → Option lib.Value)
    (hmac : String → String → String) where
  open lib use {Value, object, as_text, as_signed, value}

  -- The envelope of a message that nobody checks.
  unfoldable pub unchecked : Value → Option (MqttEnvelope Value)
  unchecked j = do
    sender ← value as_text j "sender" ""
    swarm_id ← value as_text j "swarm" ""
    role ← value as_text j "role" "worker"
    timestamp ← value as_signed j "timestamp" (pos 0)
    payload ← value (λ v. some v) j "payload" (object [])
    some (record {
      envelope_version = "swarm-mcp/v1";
      sender = sender;
      swarm_id = swarm_id;
      role = role;
      timestamp = timestamp;
      payload = payload;
      signature = "";
    })

  unfoldable pub on_raw_message : SecureMqttClient → (now : ℕ) → MqttMessage → Delivery Value
  unfolding receive unchecked
  on_raw_message c now msg = elim (verify lib dump parse hmac msg.payload c.swarm_secret) [
    | threw ↦ escaped
    | verified env ↦ receive c now msg.topic env
    | rejected ↦
        if c.swarm_secret == ""
        then elim (parse msg.payload) [
          | none ↦ dropped
          | some j ↦ elim (unchecked j) [ none ↦ escaped | some env ↦ receive c now msg.topic env ]
        ]
        else dropped
  ]
