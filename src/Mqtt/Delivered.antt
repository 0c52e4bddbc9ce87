-- ===== src/Mqtt/Delivered.antt =====
-- What a callback can rely on, and what a malformed message does.
use swarm_mcp.Prelude.{
  ℕ, suc, ◌+◌, ◌*◌, ◌<◌, ◌≤◌, String, ◌≡◌, ◌≢◌, ◌⊎◌, refl, inl, inr, true, Option, none, some, List,
  [], ◌∷◌, In, arith, Bool-cases,
}
use swarm_mcp.Int.{ℤ, pos, negsuc}
use swarm_mcp.Json.{JsonLib}
use swarm_mcp.Mqtt.Envelope.{
  MqttEnvelope, Verdict, rejected, threw, verified, fresh_at, is_fresh, signing_input,
  read_envelope, verify, verify_json,
}
use swarm_mcp.Mqtt.Signing.{verify_sound}
use swarm_mcp.Mqtt.Client.{
  SecureMqttClient, MqttMessage, escaped, delivered, accepts, dispatch, receive, on_raw_message,
}

-- A time in milliseconds that is not more than 30 seconds ahead of the clock, and less than `max_age`
-- seconds back.
abbrev pub IsTimely : (now max_age : ℕ) → ℤ → Type 0
IsTimely now max_age (pos t) = (t ≤ now + 30000) × (now < t + max_age * 1000)
IsTimely now max_age (negsuc t) = now + suc t < max_age * 1000

IsTimely-of_fresh_at :
    (t : ℤ) (now max_age : ℕ) → fresh_at t now max_age ≡ true → IsTimely now max_age t
IsTimely-of_fresh_at (pos t) now max_age h = (ground arith, ground arith)
IsTimely-of_fresh_at (negsuc t) now max_age h = ground arith

verdict-cases :
    {J : Type 0} (v : Verdict J)
    → (v ≡ threw) ⊎ ((v ≡ rejected) ⊎ ((env : MqttEnvelope J) × (v ≡ verified env)))
verdict-cases threw = inl refl
verdict-cases rejected = inr (inl refl)
verdict-cases (verified env) = inr (inr (env, refl))

dispatch-delivered :
    {J : Type 0} (filters : List String) (topic f : String) (env got : MqttEnvelope J)
    → dispatch filters topic env ≡ delivered f got
    → (env ≡ got) × In f filters × (accepts f topic ≡ true)
unfolding dispatch
dispatch-delivered [] topic f env got h = cc
dispatch-delivered (g ∷ gs) topic f env got h = elim (Bool-cases (accepts g topic)) [
  | inl a ↦ let same : delivered g env ≡ delivered f got = ground arith in ground arith
  | inr a ↦
      let (same, at, ok) = dispatch-delivered gs topic f env got (ground arith) in
      (same, inr at, ok)
]

receive-delivered :
    {J : Type 0} (c : SecureMqttClient) (now : ℕ) (topic f : String) (env got : MqttEnvelope J)
    → receive c now topic env ≡ delivered f got
    → (env ≡ got)
      × In f c.filters
      × (accepts f topic ≡ true)
      × (env.swarm_id ≡ c.swarm_id)
      × IsTimely now c.max_message_age env.timestamp
unfolding receive is_fresh
receive-delivered c now topic f env got h =
    let (same, at, ok) = dispatch-delivered c.filters topic f env got (ground arith) in
    (
      same,
      at,
      ok,
      ground arith,
      IsTimely-of_fresh_at env.timestamp now c.max_message_age (ground arith),
    )

module _ (lib : JsonLib) (dump : lib.Value → String) (parse : String → Option lib.Value)
    (hmac : String → String → String) where
  open lib use {Value, as_text, value}

  -- If a client that has a secret passes a message to a callback, the callback's filter accepts the
  -- topic, and the envelope is signed with the secret, belongs to the client's swarm, is not more
  -- than 30 seconds ahead of the clock, and is younger than the greatest age.
  pub on_raw_message_lem :
      (c : SecureMqttClient) (now : ℕ) (msg : MqttMessage) (f : String) (env : MqttEnvelope Value)
      → c.swarm_secret ≢ ""
      → on_raw_message lib dump parse hmac c now msg ≡ delivered f env
      → In f c.filters
        × (accepts f msg.topic ≡ true)
        × (env.signature
            ≡ hmac
                (signing_input lib dump parse hmac env.sender env.swarm_id env.timestamp
                  env.payload)
                c.swarm_secret)
        × (env.swarm_id ≡ c.swarm_id)
        × IsTimely now c.max_message_age env.timestamp
  unfolding on_raw_message
  on_raw_message_lem c now msg f env secret h =
      elim (verdict-cases (verify lib dump parse hmac msg.payload c.swarm_secret)) [
        | inl a ↦ absurd (ground arith)
        | inr (inl a) ↦ absurd (ground arith)
        | inr (inr (got, e)) ↦
            let (same, at, ok, swarm, timely) =
              receive-delivered c now msg.topic f got env (ground arith) in
            let signed = verify_sound lib dump parse hmac msg.payload c.swarm_secret got e in
            ground arith
      ]

  -- A message of the right version whose fields cannot all be read makes the handler throw, whatever
  -- its signature: neither `verify` nor the handler catches a `json::type_error`.
  pub on_raw_message_escapes :
      (c : SecureMqttClient) (now : ℕ) (msg : MqttMessage) (j : Value)
      → parse msg.payload ≡ some j
      → value as_text j "envelope" "" ≡ some "swarm-mcp/v1"
      → read_envelope lib dump parse hmac j ≡ none
      → on_raw_message lib dump parse hmac c now msg ≡ escaped
  unfolding on_raw_message verify verify_json
  on_raw_message_escapes c now msg j parsed versioned unread = ground arith
