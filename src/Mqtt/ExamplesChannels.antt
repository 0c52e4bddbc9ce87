-- ===== src/Mqtt/ExamplesChannels.antt =====
-- The table of channels at concrete inputs.
use swarm_mcp.Prelude.{String, ◌≡◌, refl, List, [], ◌∷◌, String_discrete}
use swarm_mcp.Dict.{lookup, insert, erase}
use swarm_mcp.Json.Values.{Value, json_values}
use swarm_mcp.Mqtt.Channels.{
  Channel, ChannelManager, ChannelEffect, broadcasts, custom, subscribe_verified, channel,
  channel_manager, create, on_message, get, remove, key, topic_of, type_prefix,
}
use swarm_mcp.Mqtt.ChannelTable.{Call, create_channel, remove_channel, listen, run, run-get}

abbrev calls : List (Call json_values String)
calls =
    create_channel custom "chat" 2
    ∷ remove_channel broadcasts ""
    ∷ listen custom "chat" "callback"
    ∷ []

abbrev after : ChannelManager String
after = run json_values String (channel_manager json_values "team" "s") calls

abbrev chat : ChannelEffect String Value (Channel String)
chat = get json_values after custom "chat"

run-get_example :
    (chat.result.spec.kind ≡ custom)
    × ◌≡◌ {A = String} chat.result.spec.name "chat"
    × ◌≡◌ {A = String} chat.result.spec.namespace "team"
    × (chat.result.full_topic ≡ topic_of chat.result.spec)
    × (get json_values chat.state custom "chat"
        ≡ record { state = chat.state; result = chat.result; calls = [] })
run-get_example = run-get json_values String "team" "s" calls custom "chat"

chat_topic : topic_of chat.result.spec ≡ "mcp-collab/team/custom/chat"
unfolding topic_of type_prefix get key channel_manager create channel remove lookup insert erase
    String_discrete on_message
chat_topic = refl

-- The channel for everybody, which was removed, is made anew and subscribed again.
made_anew :
    (get json_values after broadcasts "").calls
    ≡ subscribe_verified "mcp-collab/team/broadcast/#" 1 7 ∷ []
unfolding topic_of type_prefix get key channel_manager create channel remove lookup insert erase
    String_discrete
made_anew = refl
