-- ===== src/Mqtt/Subscriptions.antt =====
-- `MqttClient`: the subscriptions and the state of the connection. What the MQTT library answers to a
-- call is an argument; the calls of it are listed. A callback is known by what it is (`C`).
use swarm_mcp.Prelude.{
  ℕ, ◌*◌, String, Bool, true, false, not, ◌||◌, Option, none, some, List, [], ◌∷◌, map, ◌++◌ as ◌⧺◌,
  min, if◌then◌else◌,
}
use swarm_mcp.Dict.{Dict, lookup, insert, erase}
use swarm_mcp.Text.{codes, ◌=ᵇ◌}
use swarm_mcp.Mqtt.Topics.{Level, hash, same, match_levels}

pub record MqttClient (C : Type 0) : Type 0 where
  pub connected : Bool
  pub callbacks : Dict C
  pub subscription_qos : Dict ℕ
  pub reconnect_delay_ms : ℕ

-- The parts of a topic, as std::getline cuts them: a part that is empty counts unless the text ends
-- before it.
abbrev pub last_part : Level → List Level
last_part [] = []
last_part (c ∷ part) = (c ∷ part) ∷ []

unfoldable pub parts : List ℕ → Level → List Level
parts [] part = last_part part
parts (c ∷ s) part = elim (c =ᵇ b'/') [ true ↦ part ∷ parts s [] | false ↦ parts s (part ⧺ c ∷ []) ]

unfoldable pub mqtt_match : (pattern topic : List ℕ) → Bool
unfolding same parts match_levels
mqtt_match pattern topic =
    if same pattern topic || same pattern hash
    then true
    else match_levels (parts pattern []) (parts topic [])

-- A call of the MQTT library.
pub data Sent : Type 0 where
  subscribes : (topic : String) (qos : ℕ) → Sent
  unsubscribes : (topic : String) → Sent
  sends : (topic payload : String) (qos : ℕ) (retained : Bool) → Sent
  disconnects : Sent

abbrev pub Outcome : Type 0 → Type 0
Outcome C = Bool × (MqttClient C × List Sent)

abbrev pub qos_of : Option ℕ → ℕ
qos_of none = 1
qos_of (some qos) = qos

module _ {C : Type 0} where
  unfoldable pub mqtt_client : MqttClient C
  mqtt_client = record {
    connected = false;
    callbacks = [];
    subscription_qos = [];
    reconnect_delay_ms = 1000;
  }

  unfoldable pub subscribe :
      MqttClient C → (topic : String) → (qos : ℕ) → C → (accepted : Bool) → Outcome C
  subscribe c topic qos callback accepted = (
    accepted,
    (
      record c {
        callbacks = insert topic callback c.callbacks;
        subscription_qos = insert topic qos c.subscription_qos;
      },
      subscribes topic qos ∷ [],
    ),
  )

  unfoldable pub unsubscribe : MqttClient C → (topic : String) → (accepted : Bool) → Outcome C
  unsubscribe c topic accepted = (
    accepted,
    (
      record c {
        callbacks = erase topic c.callbacks;
        subscription_qos = erase topic c.subscription_qos;
      },
      unsubscribes topic ∷ [],
    ),
  )

  unfoldable pub publish :
      MqttClient C → (topic payload : String) → (qos : ℕ) → (retained accepted : Bool) → Outcome C
  publish c topic payload qos retained accepted =
      if not c.connected
      then (false, (c, []))
      else (accepted, (c, sends topic payload qos retained ∷ []))

  -- `client`: the handle of the library is there.
  unfoldable pub disconnect : MqttClient C → (client : Bool) → MqttClient C × List Sent
  disconnect c client =
      if not client || not c.connected
      then (c, [])
      else (record c { connected = false }, disconnects ∷ [])

  unfoldable pub subscribed_topics : MqttClient C → List String
  subscribed_topics c = map (λ e. e.0) c.callbacks

  -- The loop of `on_connect_success`.
  unfoldable pub resubscribe : Dict C → (qos : Dict ℕ) → List Sent
  resubscribe [] qos = []
  resubscribe ((topic, callback) ∷ rest) qos =
      subscribes topic (qos_of (lookup topic qos)) ∷ resubscribe rest qos

  unfoldable pub on_connect_success : MqttClient C → MqttClient C × List Sent
  unfolding resubscribe
  on_connect_success c = (
    record c { connected = true; reconnect_delay_ms = 1000 },
    resubscribe c.callbacks c.subscription_qos,
  )

  unfoldable pub on_connect_failure : MqttClient C → MqttClient C
  on_connect_failure c = record c { reconnect_delay_ms = min (c.reconnect_delay_ms * 2) 30000 }

  unfoldable pub on_connection_lost : MqttClient C → MqttClient C
  on_connection_lost c = record c { connected = false }

  -- The callback that `handle_message` calls: the first whose pattern covers the topic.
  unfoldable pub first_match : Dict C → (topic : String) → Option C
  unfolding mqtt_match
  first_match [] topic = none
  first_match ((pattern, callback) ∷ rest) topic =
      let later = first_match rest topic in
      if mqtt_match (codes pattern) (codes topic) then some callback else later

  unfoldable pub handle_message :
      MqttClient C → (topic payload : String) → Option (C × (String × String))
  unfolding first_match
  handle_message c topic payload = elim (first_match c.callbacks topic) [
    | none ↦ none
    | some callback ↦ some (callback, (topic, payload))
  ]
