-- ===== src/Events/Bus.antt =====
-- `EventBus`. What a handler does is not modelled: `emit` says which handlers it calls, in order. The
-- capacity is a parameter, since only its being a bound matters; the source has 10000.
use swarm_mcp.Prelude.{
  ℕ, zero, suc, ◌-◌, String, none, some, List, [], ◌∷◌, ◌++◌ as ◌⧺◌, map, ◌==◌, if◌then◌else◌, ltb,
  length,
}
use swarm_mcp.Text.{◌=ᵇ◌}
use swarm_mcp.Dict.{Dict, lookup, insert}

pub record Event (J : Type 0) : Type 0 where
  pub id : String
  pub kind : String
  pub source : String
  pub payload : J
  pub timestamp : ℕ

-- A handler is known by its subscription; `handlers` has the subscriptions of each type.
pub record EventBus (J : Type 0) : Type 0 where
  pub event_log : List (Event J)
  pub handlers : Dict (List ℕ)
  pub next_id : ℕ

unfoldable pub subscribed : Dict (List ℕ) → String → List ℕ
subscribed handlers kind = elim (lookup kind handlers) [ none ↦ [] | some ids ↦ ids ]

unfoldable pub erase_id : ℕ → List ℕ → List ℕ
erase_id id [] = []
erase_id id (i ∷ is) = let rest = erase_id id is in if i =ᵇ id then rest else i ∷ rest

module _ {J : Type 0} where
  unfoldable pub event_bus : EventBus J
  event_bus = record { event_log = []; handlers = []; next_id = 1 }

  unfoldable pub subscribe : EventBus J → String → ℕ × EventBus J
  unfolding subscribed
  subscribe b kind = (
    b.next_id,
    record b {
      next_id = suc b.next_id;
      handlers = insert kind (subscribed b.handlers kind ⧺ b.next_id ∷ []) b.handlers;
    },
  )

  unfoldable pub unsubscribe : EventBus J → ℕ → EventBus J
  unfolding erase_id
  unsubscribe b id = record b { handlers = map (λ e. (e.0, erase_id id e.1)) b.handlers }

  -- The loop that drops the oldest events.
  unfoldable pub trim : (max_log_size : ℕ) → List (Event J) → List (Event J)
  trim max [] = []
  trim max (e ∷ es) = let rest = trim max es in if ltb max (length (e ∷ es)) then rest else e ∷ es

  -- The subscriptions that are called, and the bus afterwards.
  unfoldable pub emit : (max_log_size : ℕ) → EventBus J → Event J → List ℕ × EventBus J
  unfolding trim subscribed
  emit max b event = (
    subscribed b.handlers event.kind ⧺ subscribed b.handlers "*",
    record b { event_log = trim max (b.event_log ⧺ event ∷ []) },
  )

  unfoldable pub drop : ℕ → List (Event J) → List (Event J)
  drop zero es = es
  drop (suc n) [] = []
  drop (suc n) (e ∷ es) = drop n es

  unfoldable pub recent_events : EventBus J → (count : ℕ) → List (Event J)
  unfolding drop
  recent_events b count =
      let size = length b.event_log in
      let n = if ltb size count then size else count in drop (size - n) b.event_log

  unfoldable pub reverse : List (Event J) → List (Event J)
  reverse [] = []
  reverse (e ∷ es) = reverse es ⧺ e ∷ []

  -- From the newest event on, until there are `limit` of them.
  unfoldable pub query_loop : String → (limit : ℕ) → List (Event J) → List (Event J)
  query_loop kind zero es = []
  query_loop kind (suc n) [] = []
  query_loop kind (suc n) (e ∷ es) =
      let found = query_loop kind n es in
      let rest = query_loop kind (suc n) es in if e.kind == kind then e ∷ found else rest

  unfoldable pub query_events : EventBus J → String → (limit : ℕ) → List (Event J)
  unfolding query_loop reverse
  query_events b kind limit = query_loop kind limit (reverse b.event_log)
