-- ===== src/Mqtt/Reconnect.antt =====
-- What a client subscribes to when its connection is back, and how long it waits before.
use swarm_mcp.Prelude.{
  ℕ, ◌≤◌, ◌↔◌, String, String_discrete, ite, ◌≡◌, refl, ap, sym, subst, ◌∙◌, inl, inr, Bool, Option,
  none, some, List, [], ◌∷◌, In, arith,
}
use swarm_mcp.Dict.{Dict, lookup, lookup-insert, lookup-erase, inserted, erased}
use swarm_mcp.Mqtt.Subscriptions.{
  MqttClient, subscribes, mqtt_client, subscribe, unsubscribe, disconnect, qos_of, resubscribe,
  on_connect_success, on_connect_failure, on_connection_lost,
}

module _ (C : Type 0) where
  -- What happens to a client. The library's answer to a subscription makes no difference to the state.
  pub data Call : Type 0 where
    subscribed : (topic : String) → (qos : ℕ) → C → (accepted : Bool) → Call
    unsubscribed : (topic : String) → (accepted : Bool) → Call
    connects fails loses : Call
    disconnected : (client : Bool) → Call

  abbrev pub step : Call → MqttClient C → MqttClient C
  step (subscribed topic qos callback accepted) c = (subscribe c topic qos callback accepted).1.0
  step (unsubscribed topic accepted) c = (unsubscribe c topic accepted).1.0
  step connects c = (on_connect_success c).0
  step fails c = on_connect_failure c
  step loses c = on_connection_lost c
  step (disconnected client) c = (disconnect c client).0

  abbrev pub run : List Call → MqttClient C → MqttClient C
  run [] c = c
  run (x ∷ xs) c = run xs (step x c)

  -- The quality that was last asked for, of a topic that was not unsubscribed since.
  abbrev pub wanted : List Call → String → Option ℕ → Option ℕ
  wanted [] k q = q
  wanted (subscribed topic qos callback accepted ∷ xs) k q =
      wanted xs k (ite (String_discrete topic k) (some qos) q)
  wanted (unsubscribed topic accepted ∷ xs) k q = wanted xs k (ite (String_discrete topic k) none q)
  wanted (x ∷ xs) k q = wanted xs k q

  disconnect-tables :
      (c : MqttClient C) (client : Bool)
      → ((disconnect c client).0.subscription_qos ≡ c.subscription_qos)
        × ((disconnect c client).0.callbacks ≡ c.callbacks)
        × ((disconnect c client).0.reconnect_delay_ms ≡ c.reconnect_delay_ms)
  unfolding disconnect
  disconnect-tables c client = ground arith

  lookup-run :
      (xs : List Call) (c : MqttClient C) (k : String)
      → lookup k (run xs c).subscription_qos ≡ wanted xs k (lookup k c.subscription_qos)
  unfolding subscribe unsubscribe on_connect_success on_connect_failure on_connection_lost
  lookup-run [] c k = refl
  lookup-run (subscribed topic qos callback accepted ∷ xs) c k =
      lookup-run xs _ k ∙ ap (wanted xs k) (lookup-insert topic k qos c.subscription_qos)
  lookup-run (unsubscribed topic accepted ∷ xs) c k =
      lookup-run xs _ k ∙ ap (wanted xs k) (lookup-erase topic k c.subscription_qos)
  lookup-run (connects ∷ xs) c k = lookup-run xs _ k
  lookup-run (fails ∷ xs) c k = lookup-run xs _ k
  lookup-run (loses ∷ xs) c k = lookup-run xs _ k
  lookup-run (disconnected client ∷ xs) c k =
      lookup-run xs _ k ∙ ap (λ m. wanted xs k (lookup k m)) (disconnect-tables c client).0

  -- A topic has a callback exactly if it has a quality.
  pub record Inv (c : MqttClient C) : Type 0 where
    pub with_qos :
        (k : String) (callback : C)
        → lookup k c.callbacks ≡ some callback
        → (q : ℕ) × (lookup k c.subscription_qos ≡ some q)
    pub with_callback :
        (k : String) (q : ℕ)
        → lookup k c.subscription_qos ≡ some q
        → (callback : C) × (lookup k c.callbacks ≡ some callback)
    pub low : 1000 ≤ c.reconnect_delay_ms
    pub high : c.reconnect_delay_ms ≤ 30000

  Inv-mqtt_client : Inv mqtt_client
  unfolding mqtt_client lookup
  Inv-mqtt_client = record {
    with_qos = λ k callback e. cc;
    with_callback = λ k q e. cc;
    low = omega arith;
    high = omega arith;
  }

  step-Inv : (x : Call) (c : MqttClient C) → Inv c → Inv (step x c)
  unfolding subscribe unsubscribe on_connect_success on_connect_failure on_connection_lost
  step-Inv (subscribed topic qos callback accepted) c old = record {
    with_qos =
        λ k b e. inserted topic k callback qos c.callbacks c.subscription_qos b e (old.with_qos k);
    with_callback = λ k q e.
        inserted topic k qos callback c.subscription_qos c.callbacks q e (old.with_callback k);
    low = old.low;
    high = old.high;
  }
  step-Inv (unsubscribed topic accepted) c old = record {
    with_qos = λ k b e. erased topic k c.callbacks c.subscription_qos b e (old.with_qos k);
    with_callback =
        λ k q e. erased topic k c.subscription_qos c.callbacks q e (old.with_callback k);
    low = old.low;
    high = old.high;
  }
  step-Inv connects c old = record {
    with_qos = old.with_qos;
    with_callback = old.with_callback;
    low = omega arith;
    high = omega arith;
  }
  step-Inv fails c old =
      let low = old.low in
      record {
        with_qos = old.with_qos;
        with_callback = old.with_callback;
        low = ground arith;
        high = ground arith;
      }
  step-Inv loses c old = record {
    with_qos = old.with_qos;
    with_callback = old.with_callback;
    low = old.low;
    high = old.high;
  }
  step-Inv (disconnected client) c old =
      let (same_qos, same_callbacks, same_delay) = disconnect-tables c client in
      record {
        with_qos = λ k b e.
            let (q, f) = old.with_qos k b (ground (arith, same_callbacks)) in
            (q, ground (arith, same_qos));
        with_callback = λ k q e.
            let (b, f) = old.with_callback k q (ground (arith, same_qos)) in
            (b, ground (arith, same_callbacks));
        low = omega (arith, old.low, same_delay);
        high = omega (arith, old.high, same_delay);
      }

  run-Inv : (xs : List Call) (c : MqttClient C) → Inv c → Inv (run xs c)
  run-Inv [] c old = old
  run-Inv (x ∷ xs) c old = run-Inv xs (step x c) (step-Inv x c old)

  In-resubscribe :
      (m : Dict C) (qos : Dict ℕ) (k : String) (q : ℕ)
      → In (subscribes k q) (resubscribe m qos)
      → (b : C) × (lookup k m ≡ some b) × (q ≡ qos_of (lookup k qos))
  unfolding resubscribe lookup
  In-resubscribe [] qos k q h = absurd h
  In-resubscribe ((t, b) ∷ m) qos k q h = elim h [
    | inl e ↦ (b, ground arith, ground arith)
    | inr r ↦
        let (b', found, same) = In-resubscribe m qos k q r in
        elim (String_discrete t k) [
          | yes hit ↦ (b, ground arith, same)
          | no miss ↦ (b', ground arith, same)
        ]
  ]

  resubscribe-In :
      (m : Dict C) (qos : Dict ℕ) (k : String) (b : C)
      → lookup k m ≡ some b
      → In (subscribes k (qos_of (lookup k qos))) (resubscribe m qos)
  unfolding resubscribe lookup
  resubscribe-In [] qos k b e = cc
  resubscribe-In ((t, c) ∷ m) qos k b e = elim (String_discrete t k) [
    | yes hit ↦ inl (ap (λ x. subscribes x (qos_of (lookup x qos))) (sym hit))
    | no miss ↦ inr (resubscribe-In m qos k b (ground arith))
  ]

  lookup-new :
      (xs : List Call) (k : String)
      → lookup k (run xs mqtt_client).subscription_qos ≡ wanted xs k none
  unfolding mqtt_client lookup
  lookup-new xs k = lookup-run xs mqtt_client k

  -- After any calls on a new client, what is subscribed to when the connection is back are exactly the
  -- topics that were subscribed to and not unsubscribed since, each with the quality that was asked
  -- for last.
  pub on_connect_success_iff :
      (xs : List Call) (k : String) (q : ℕ)
      → In (subscribes k q) (on_connect_success (run xs mqtt_client)).1
        ↔ (wanted xs k none ≡ some q)
  unfolding on_connect_success
  on_connect_success_iff xs k q =
      let c = run xs mqtt_client in
      let inv = run-Inv xs mqtt_client Inv-mqtt_client in
      let asked = lookup-new xs k in
      (
        λ h.
            let (b, found, same) = In-resubscribe c.callbacks c.subscription_qos k q h in
            let (q', has) = inv.with_qos k b found in ground (arith, same, has, asked),
        λ e.
            let has : lookup k c.subscription_qos ≡ some q = asked ∙ e in
            let (b, found) = inv.with_callback k q has in
            subst (λ x. In (subscribes k x) (resubscribe c.callbacks c.subscription_qos))
              (ap qos_of has) (resubscribe-In c.callbacks c.subscription_qos k b found),
      )

  -- Whatever happens to a client, its reconnect delay is at least 1000 and at most 30000.
  run-delay :
      (xs : List Call)
      → (1000 ≤ (run xs mqtt_client).reconnect_delay_ms)
        × ((run xs mqtt_client).reconnect_delay_ms ≤ 30000)
  run-delay xs = let inv = run-Inv xs mqtt_client Inv-mqtt_client in (inv.low, inv.high)
