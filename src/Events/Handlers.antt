-- ===== src/Events/Handlers.antt =====
-- Subscriptions: which handlers an event reaches, and that ids are never used twice.
use swarm_mcp.Prelude.{
  ℕ, String, ◌≡◌, refl, sym, ap, if◌then◌else◌, ◌==◌, ◌∙◌, none, some, List, [], ◌∷◌, ◌++◌ as ◌⧺◌,
  map, arith, ite, String_discrete,
}
use swarm_mcp.Dict.{Dict, lookup, lookup-insert}
use swarm_mcp.Events.Bus.{Event, EventBus, subscribed, subscribe, erase_id, unsubscribe, emit}

subscribed-map :
    (f : List ℕ → List ℕ) (m : Dict (List ℕ)) (k : String)
    → f [] ≡ []
    → subscribed (map (λ (e : String × List ℕ). (e.0, f e.1)) m) k ≡ f (subscribed m k)
unfolding subscribed lookup
subscribed-map f [] k e = sym e
subscribed-map f ((j, v) ∷ m) k e =
    elim (String_discrete j k)
      as (λ d.
        (elim (ite d (some (f v)) (lookup k (map (λ (e : String × List ℕ). (e.0, f e.1)) m))) [
          | none ↦ []
          | some ids ↦ ids
        ])
        ≡ f (elim (ite d (some v) (lookup k m)) [ none ↦ [] | some ids ↦ ids ])) [
          | yes hit ↦ refl
          | no miss ↦ subscribed-map f m k e
        ]

erase_id-append :
    (id : ℕ) (is js : List ℕ) → erase_id id (is ⧺ js) ≡ erase_id id is ⧺ erase_id id js
unfolding erase_id
erase_id-append id [] js = refl
erase_id-append id (i ∷ is) js = ground (arith, erase_id-append id is js)

module _ {J : Type 0} (max : ℕ) (b : EventBus J) where
  -- After `unsubscribe` an event calls the handlers that it called before, in the same order, without
  -- those of that subscription.
  pub emit-unsubscribe :
      (id : ℕ) (event : Event J)
      → (emit max (unsubscribe b id) event).0 ≡ erase_id id (emit max b event).0
  unfolding emit unsubscribe
  emit-unsubscribe id event =
      let at = subscribed-map (erase_id id) b.handlers event.kind (unfold erase_id in refl) in
      let any = subscribed-map (erase_id id) b.handlers "*" (unfold erase_id in refl) in
      ap
        (λ l. l ⧺ subscribed (map (λ (e : String × List ℕ). (e.0, erase_id id e.1)) b.handlers) "*")
        at
      ∙ ap (λ l. erase_id id (subscribed b.handlers event.kind) ⧺ l) any
      ∙ sym (erase_id-append id (subscribed b.handlers event.kind) (subscribed b.handlers "*"))

  -- After `subscribe` an event calls the new handler behind those that it called for the type, if it
  -- has the type, and behind those for all types, if the new handler is for all types.
  pub emit-subscribe :
      (kind : String) (event : Event J)
      → (emit max (subscribe b kind).1 event).0
        ≡ (if kind == event.kind
            then subscribed b.handlers event.kind ⧺ b.next_id ∷ []
            else subscribed b.handlers event.kind)
          ⧺ (if kind == "*"
              then subscribed b.handlers "*" ⧺ b.next_id ∷ []
              else subscribed b.handlers "*")
  unfolding emit subscribe subscribed
  emit-subscribe kind event = ground (
    arith,
    lookup-insert kind event.kind (subscribed b.handlers kind ⧺ b.next_id ∷ []) b.handlers,
    lookup-insert kind "*" (subscribed b.handlers kind ⧺ b.next_id ∷ []) b.handlers,
  )

-- A handler for all types is called twice for an event whose type is `*`.
emit-any :
    {J : Type 0} (max : ℕ) (b : EventBus J) (event : Event J)
    → event.kind ≡ "*"
    → (emit max b event).0 ≡ subscribed b.handlers "*" ⧺ subscribed b.handlers "*"
unfolding emit
emit-any max b event e = ap (λ k. subscribed b.handlers k ⧺ subscribed b.handlers "*") e
