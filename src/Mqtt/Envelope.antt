-- ===== src/Mqtt/Envelope.antt =====
-- `MqttEnvelope`. Printing and parsing JSON are parameters with the JSON library, `hmac data secret`
-- stands for `compute_hmac`, and the clock is an argument, in milliseconds.
use Prim.Native.String.{◌++◌}
use swarm_mcp.Prelude.{
  ℕ, suc, ◌+◌, ◌*◌, String, Bool, not, ◌&&◌, Option, none, some, [], ◌∷◌, ◌==◌, if◌then◌else◌, leb,
  ltb,
}
use swarm_mcp.Int.{ℤ, pos, negsuc}
use swarm_mcp.Json.{JsonLib, ◌>>=◌}
use swarm_mcp.Auth.Role.{Role, role_to_str}
use swarm_mcp.Auth.Token.{decimal}
use swarm_mcp.Auth.Provider.{verify_sig}

pub record MqttEnvelope (J : Type 0) : Type 0 where
  pub envelope_version : String
  pub sender : String
  pub swarm_id : String
  pub role : String
  pub timestamp : ℤ
  pub payload : J
  pub signature : String

-- How `verify` ends: `std::nullopt`, a `json::type_error` that nobody catches there, or an envelope.
pub data Verdict (J : Type 0) : Type 0 where
  rejected threw : Verdict J
  verified : MqttEnvelope J → Verdict J

-- Whether the age is at least -30000 ms and less than the greatest age.
abbrev pub fresh_at : ℤ → (now max_age : ℕ) → Bool
fresh_at (pos t) now max_age = leb t (now + 30000) && ltb now (t + max_age * 1000)
fresh_at (negsuc t) now max_age = ltb (now + suc t) (max_age * 1000)

unfoldable pub is_fresh : {J : Type 0} → MqttEnvelope J → (now max_age : ℕ) → Bool
is_fresh env now max_age = fresh_at env.timestamp now max_age

-- A number with its sign, as std::format prints it.
abbrev pub signed_decimal : ℤ → String
signed_decimal (pos n) = decimal n
signed_decimal (negsuc n) = "-" ++ decimal (suc n)

module _ (lib : JsonLib) (dump : lib.Value → String) (parse : String → Option lib.Value)
    (hmac : String → String → String) where
  open lib use {Value, text, signed, object, member, as_text, as_signed, value}

  unfoldable pub envelope_to_json : MqttEnvelope Value → Value
  envelope_to_json env = object (
      ("envelope", text env.envelope_version)
      ∷ ("sender", text env.sender)
      ∷ ("swarm", text env.swarm_id)
      ∷ ("role", text env.role)
      ∷ ("timestamp", signed env.timestamp)
      ∷ ("payload", env.payload)
      ∷ ("signature", text env.signature)
      ∷ [])

  -- std::format("{}:{}:{}:{}", sender, swarm_id, timestamp, payload_str)
  unfoldable pub signing_input : (sender swarm_id : String) (timestamp : ℤ) → Value → String
  signing_input sender swarm_id timestamp payload =
      sender ++ (":" ++ (swarm_id ++ (":" ++ (signed_decimal timestamp ++ (":" ++ dump payload)))))

  unfoldable pub sign :
      (now : ℕ) (sender swarm_id : String) → Role → Value → (secret : String) → MqttEnvelope Value
  unfolding signing_input
  sign now sender swarm_id role payload secret = record {
    envelope_version = "swarm-mcp/v1";
    sender = sender;
    swarm_id = swarm_id;
    role = role_to_str role;
    timestamp = pos now;
    payload = payload;
    signature = hmac (signing_input sender swarm_id (pos now) payload) secret;
  }

  -- j[key].get<...>(): a missing key makes a null value, which `get` refuses.
  unfoldable pub at : {A : Type 0} → (Value → Option A) → Value → String → Option A
  at get j key = member j key >>= get

  -- j["payload"], with no `get`: a missing payload is null.
  unfoldable pub payload_of : Value → Value
  payload_of j = elim (member j "payload") [ none ↦ lib.null | some v ↦ v ]

  unfoldable pub read_envelope : Value → Option (MqttEnvelope Value)
  unfolding at payload_of
  read_envelope j = do
    envelope_version ← at as_text j "envelope"
    sender ← at as_text j "sender"
    swarm_id ← at as_text j "swarm"
    role ← at as_text j "role"
    timestamp ← at as_signed j "timestamp"
    signature ← at as_text j "signature"
    some (record {
      envelope_version = envelope_version;
      sender = sender;
      swarm_id = swarm_id;
      role = role;
      timestamp = timestamp;
      payload = payload_of j;
      signature = signature;
    })

  unfoldable pub verify_envelope : MqttEnvelope Value → (secret : String) → Verdict Value
  unfolding signing_input
  verify_envelope env secret =
      if verify_sig hmac (signing_input env.sender env.swarm_id env.timestamp env.payload)
        env.signature secret
      then verified env
      else rejected

  unfoldable pub verify_json : Value → (secret : String) → Verdict Value
  unfolding read_envelope verify_envelope
  verify_json j secret = elim (value as_text j "envelope" "") [
    | none ↦ threw
    | some v ↦
        if not (v == "swarm-mcp/v1")
        then rejected
        else elim (read_envelope j) [ none ↦ threw | some env ↦ verify_envelope env secret ]
  ]

  unfoldable pub verify : (raw secret : String) → Verdict Value
  unfolding verify_json
  verify raw secret = elim (parse raw) [ none ↦ rejected | some j ↦ verify_json j secret ]
