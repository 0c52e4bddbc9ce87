-- ===== src/Mqtt/ExamplesClient.antt =====
-- The theorems on subscriptions at concrete inputs, and tests of the definitions.
use swarm_mcp.Prelude.{
  String, ◌≡◌, ◌↔◌, refl, true, false, none, some, List, [], ◌∷◌, In, String_discrete,
}
use swarm_mcp.Dict.{Dict, lookup, insert, erase}
use swarm_mcp.Text.{codes}
use swarm_mcp.Mqtt.Subscriptions.{
  subscribes, mqtt_client, mqtt_match, first_match, on_connect_success, subscribe, unsubscribe,
  resubscribe, on_connection_lost,
}
use swarm_mcp.Mqtt.Reconnect.{
  Call, subscribed, unsubscribed, loses, run, wanted, on_connect_success_iff,
}
use swarm_mcp.Mqtt.Matching.{IsChosen, first_match-IsChosen}

abbrev calls : List (Call String)
calls =
    subscribed "a/#" 1 "one" true
    ∷ subscribed "b" 0 "two" true
    ∷ subscribed "a/#" 2 "three" false
    ∷ unsubscribed "b" true
    ∷ loses
    ∷ []

again : (on_connect_success (run String calls mqtt_client)).1 ≡ subscribes "a/#" 2 ∷ []
unfolding on_connect_success subscribe unsubscribe mqtt_client resubscribe lookup insert erase
    String_discrete on_connection_lost
again = refl

on_connect_success_iff_example :
    In (subscribes "a/#" 2) (on_connect_success (run String calls mqtt_client)).1
    ↔ (wanted String calls "a/#" none ≡ some 2)
on_connect_success_iff_example = on_connect_success_iff String calls "a/#" 2

-- MQTT has three levels in the first of the two topics, and the code two.
slash_at_end : mqtt_match (codes "a/b") (codes "a/b/") ≡ true
unfolding mqtt_match
slash_at_end = refl

one_level : mqtt_match (codes "a/+") (codes "a/b/c") ≡ false
unfolding mqtt_match
one_level = refl

abbrev callbacks : Dict String
callbacks = ("a/+", "one") ∷ ("a/#", "two") ∷ []

first_match-IsChosen_example : IsChosen callbacks "a/b/c" (first_match callbacks "a/b/c")
first_match-IsChosen_example = first_match-IsChosen callbacks "a/b/c"
