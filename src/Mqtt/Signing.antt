-- ===== src/Mqtt/Signing.antt =====
-- What a verified envelope proves, and what it does not.
use swarm_mcp.Prelude.{
  ℕ, ◌<◌, ◌^◌, String, ◌≡◌, refl, ◌∙◌, ap, subst, inl, inr, true, Option, some, arith, Option-cases,
  Bool-cases, String_discrete,
}
use swarm_mcp.Dict.{lookup}
use swarm_mcp.Int.{FitsInt64}
use swarm_mcp.Json.{JsonLib}
use swarm_mcp.Auth.Role.{Role}
use swarm_mcp.Auth.Provider.{verify_sig}
use swarm_mcp.Mqtt.Envelope.{
  MqttEnvelope, verified, envelope_to_json, signing_input, sign, at, payload_of, read_envelope,
  verify_envelope, verify_json, verify,
}

module _ (lib : JsonLib) (dump : lib.Value → String) (parse : String → Option lib.Value)
    (hmac : String → String → String) where
  open lib use {Value, as_text, as_signed, value}

  verify_sig-hmac : (s secret : String) → verify_sig hmac s (hmac s secret) secret ≡ true
  unfolding verify_sig
  verify_sig-hmac s secret = ground arith

  verify_sig-true : (s t secret : String) → verify_sig hmac s t secret ≡ true → t ≡ hmac s secret
  unfolding verify_sig
  verify_sig-true s t secret h = ground arith

  verify_envelope-true :
      (got env : MqttEnvelope Value) (secret : String)
      → verify_envelope lib dump parse hmac got secret ≡ verified env
      → (got ≡ env)
        × (verify_sig hmac
              (signing_input lib dump parse hmac got.sender got.swarm_id got.timestamp got.payload)
              got.signature
              secret
            ≡ true)
  unfolding verify_envelope
  verify_envelope-true got env secret h =
      elim (Bool-cases (
        verify_sig hmac
          (signing_input lib dump parse hmac got.sender got.swarm_id got.timestamp got.payload)
          got.signature secret)) [ inl a ↦ (ground arith, a) | inr a ↦ absurd (ground arith) ]

  verify_envelope-hmac :
      (env : MqttEnvelope Value) (secret : String)
      → env.signature
        ≡ hmac
            (signing_input lib dump parse hmac env.sender env.swarm_id env.timestamp env.payload)
            secret
      → verify_envelope lib dump parse hmac env secret ≡ verified env
  unfolding verify_envelope
  verify_envelope-hmac env secret e = ground (
    arith,
    verify_sig-hmac
        (signing_input lib dump parse hmac env.sender env.swarm_id env.timestamp env.payload)
        secret,
  )

  verify_json-verified :
      (j : Value) (env : MqttEnvelope Value) (secret : String)
      → value as_text j "envelope" "" ≡ some "swarm-mcp/v1"
      → read_envelope lib dump parse hmac j ≡ some env
      → env.signature
        ≡ hmac
            (signing_input lib dump parse hmac env.sender env.swarm_id env.timestamp env.payload)
            secret
      → verify_json lib dump parse hmac j secret ≡ verified env
  unfolding verify_json
  verify_json-verified j env secret v r e = ground (arith, verify_envelope-hmac env secret e)

  -- If `verify` returns an envelope, its signature is that of its sender, swarm, time and payload
  -- with the secret, and the text was parsed to a JSON value that holds these fields.
  pub verify_sound :
      (raw secret : String) (env : MqttEnvelope Value)
      → verify lib dump parse hmac raw secret ≡ verified env
      → (env.signature
          ≡ hmac
              (signing_input lib dump parse hmac env.sender env.swarm_id env.timestamp env.payload)
              secret)
        × ((j : Value) × (parse raw ≡ some j) × (read_envelope lib dump parse hmac j ≡ some env))
  unfolding verify verify_json
  verify_sound raw secret env h = elim (Option-cases (parse raw)) [
    | inl e ↦ absurd (ground arith)
    | inr (j, e) ↦ elim (Option-cases (value as_text j "envelope" "")) [
      | inl f ↦ absurd (ground arith)
      | inr (v, f) ↦ elim (Option-cases (read_envelope lib dump parse hmac j)) [
        | inl g ↦ absurd (ground arith)
        | inr (got, g) ↦
            let (same, signed) = verify_envelope-true got env secret (ground arith) in
            (
              subst
                  (λ (x : MqttEnvelope Value).
                    x.signature
                    ≡ hmac
                        (signing_input lib dump parse hmac x.sender x.swarm_id x.timestamp
                          x.payload)
                        secret)
                  same (verify_sig-true _ got.signature secret signed),
              (j, e, ground arith),
            )
      ]
    ]
  ]

  -- The signature does not cover the role: where `verify` accepts an envelope, it also accepts a text
  -- that is parsed to the same envelope with any other role.
  pub verify_role :
      (raw forged secret role : String) (env : MqttEnvelope Value) (j : Value)
      → verify lib dump parse hmac raw secret ≡ verified env
      → parse forged ≡ some j
      → value as_text j "envelope" "" ≡ some "swarm-mcp/v1"
      → read_envelope lib dump parse hmac j ≡ some (record env { role = role })
      → verify lib dump parse hmac forged secret ≡ verified (record env { role = role })
  unfolding verify verify_json
  verify_role raw forged secret role env j h parsed versioned fields =
      let sound = verify_sound raw secret env h in
      let done =
        verify_json-verified j (record env { role = role }) secret versioned fields sound.0 in
      ground arith

  module _ (env : MqttEnvelope Value) where
    abbrev printed : Value
    printed = envelope_to_json lib dump parse hmac env

    version-printed :
        env.envelope_version ≡ "swarm-mcp/v1"
        → value as_text printed "envelope" "" ≡ some "swarm-mcp/v1"
    unfolding envelope_to_json lookup String_discrete
    version-printed v =
        lib.value-found as_text printed (lib.text env.envelope_version) "envelope" ""
          (lib.member-object _ "envelope")
        ∙ lib.as_text-text env.envelope_version
        ∙ ap some v

    at-text :
        (key s : String)
        → lib.member printed key ≡ some (lib.text s)
        → at lib dump parse hmac as_text printed key ≡ some s
    unfolding at
    at-text key s e = rw (e) (lib.as_text-text s)

    at-time :
        FitsInt64 env.timestamp
        → at lib dump parse hmac as_signed printed "timestamp" ≡ some env.timestamp
    unfolding at envelope_to_json lookup String_discrete
    at-time small = rw (lib.member-object) (lib.as_signed-signed env.timestamp small)

    payload-printed : payload_of lib dump parse hmac printed ≡ env.payload
    unfolding payload_of envelope_to_json lookup String_discrete
    payload-printed =
        let found : lib.member printed "payload" ≡ some env.payload =
          lib.member-object _ "payload" in
        ground arith

    read-printed : FitsInt64 env.timestamp → read_envelope lib dump parse hmac printed ≡ some env
    unfolding read_envelope envelope_to_json lookup String_discrete payload_of
    read-printed small = rw (
      at-text "envelope" env.envelope_version (lib.member-object _ "envelope"),
      at-text "sender" env.sender (lib.member-object _ "sender"),
      at-text "swarm" env.swarm_id (lib.member-object _ "swarm"),
      at-text "role" env.role (lib.member-object _ "role"),
      at-text "signature" env.signature (lib.member-object _ "signature"),
      at-time small,
      payload-printed,
    )

  -- An envelope that was signed and printed is verified by whoever has the secret, if the text is
  -- parsed to what was printed and the time fits in 64 bits.
  pub verify-sign :
      (raw secret : String) (now : ℕ) (sender swarm_id : String) (role : Role) (payload : Value)
      → now < 2 ^ 63
      → parse raw
        ≡ some (
            envelope_to_json lib dump parse hmac
              (sign lib dump parse hmac now sender swarm_id role payload secret))
      → verify lib dump parse hmac raw secret
        ≡ verified (sign lib dump parse hmac now sender swarm_id role payload secret)
  unfolding verify sign
  verify-sign raw secret now sender swarm_id role payload small parsed =
      let env = sign lib dump parse hmac now sender swarm_id role payload secret in
      let done =
        verify_json-verified (envelope_to_json lib dump parse hmac env) env secret
          (version-printed env refl) (read-printed env small) refl in
      ground arith
