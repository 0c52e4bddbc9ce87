-- ===== src/Events/Examples.antt =====
-- The theorems on events at concrete inputs, and tests of the definitions.
use swarm_mcp.Prelude.{ℕ, String, ◌≡◌, refl, [], ◌∷◌, arith, String_discrete}
use swarm_mcp.Dict.{lookup}
use swarm_mcp.Events.Bus.{
  Event, EventBus, emit, trim, subscribed, recent_events, query_events, query_loop, drop, reverse,
}
use swarm_mcp.Events.Log.{Newest, emit_all, emit_all-Newest}

abbrev event : String → Event ℕ
event kind = record { id = "u"; kind = kind; source = "ann"; payload = 0; timestamp = 5 }

abbrev bus : EventBus ℕ
bus = record {
  event_log = event "a" ∷ event "b" ∷ [];
  handlers = ("a", 1 ∷ 3 ∷ []) ∷ ("*", 2 ∷ []) ∷ [];
  next_id = 4;
}

emit_all-Newest_example :
    Newest 2 (event "a" ∷ event "b" ∷ event "c" ∷ []) (emit_all 2 bus (event "c" ∷ [])).event_log
emit_all-Newest_example = emit_all-Newest 2 bus (event "c" ∷ []) (omega arith)

oldest_is_gone : (emit_all 2 bus (event "c" ∷ [])).event_log ≡ event "b" ∷ event "c" ∷ []
unfolding emit trim
oldest_is_gone = refl

called_twice : (emit 2 bus (event "*")).0 ≡ 2 ∷ 2 ∷ []
unfolding emit subscribed lookup String_discrete
called_twice = refl

newest_first : query_events bus "b" 1 ≡ event "b" ∷ []
unfolding query_events query_loop reverse String_discrete
newest_first = refl

last_one : recent_events bus 1 ≡ event "b" ∷ []
unfolding recent_events drop
last_one = refl
