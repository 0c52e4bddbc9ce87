-- ===== src/Mqtt/Channels.antt =====
-- src/mqtt/channel.cpp: the topics of channels, and the table of channels. What the secure client
-- answers is not read here; the calls of it are listed. A callback is known by what it is (`C`).
use Prim.Native.String.{◌++◌}
use swarm_mcp.Prelude.{
  ℕ, suc, ◌+◌, ◌*◌, String, Bool, false, Option, none, some, List, [], ◌∷◌, ◌++◌ as ◌⧺◌, ◌==◌,
  if◌then◌else◌, to_millis,
}
use swarm_mcp.Dict.{Dict, lookup, insert, erase}
use swarm_mcp.Auth.Role.{coordinator}
use swarm_mcp.Auth.Token.{AuthToken}
use swarm_mcp.Json.{JsonLib}

pub data ChannelType : Type 0 where
  task_updates agent_presence events context_sync git_coordination broadcasts custom : ChannelType

pub record ChannelSpec : Type 0 where
  pub kind : ChannelType
  pub namespace : String
  pub name : String
  pub qos : ℕ
  pub retained : Bool

-- A channel; `serial` tells the objects apart, which subscriptions refer to.
pub record Channel (C : Type 0) : Type 0 where
  pub serial : ℕ
  pub spec : ChannelSpec
  pub full_topic : String
  pub swarm_id : String
  pub message_cb : Option C

-- A call of the secure client.
pub data ClientCall (J : Type 0) : Type 0 where
  subscribe_verified : (filter : String) (qos : ℕ) (serial : ℕ) → ClientCall J
  publish_signed :
      (topic : String) (payload : J) (token : AuthToken) (qos : ℕ) (retained : Bool) → ClientCall J

-- The table, and how many channels were made.
pub record ChannelManager (C : Type 0) : Type 0 where
  pub namespace : String
  pub swarm_id : String
  pub channels : Dict (Channel C)
  pub made : ℕ

-- What a call leaves behind, what it returns, and the calls of the client, in order.
pub record ChannelEffect (C J A : Type 0) : Type 0 where
  pub state : ChannelManager C
  pub result : A
  pub calls : List (ClientCall J)

unfoldable pub type_prefix : ChannelType → String
type_prefix task_updates = "tasks"
type_prefix agent_presence = "agents"
type_prefix events = "events"
type_prefix context_sync = "context"
type_prefix git_coordination = "git"
type_prefix broadcasts = "broadcast"
type_prefix custom = "custom"

-- std::format("{}:{}", static_cast<int>(type), name)
unfoldable pub key : ChannelType → (name : String) → String
key task_updates name = "0:" ++ name
key agent_presence name = "1:" ++ name
key events name = "2:" ++ name
key context_sync name = "3:" ++ name
key git_coordination name = "4:" ++ name
key broadcasts name = "5:" ++ name
key custom name = "6:" ++ name

unfoldable pub topic_of : ChannelSpec → String
unfolding type_prefix
topic_of spec =
    "mcp-collab/"
    ++ ((if spec.namespace == "" then "default" else spec.namespace)
        ++ ("/" ++ (type_prefix spec.kind ++ (if spec.name == "" then "" else "/" ++ spec.name))))

-- `started` is when the thread has made its token.
abbrev pub internal_token : (started : ℕ) → AuthToken
internal_token started = record {
  token_id = "swarm-mcp-internal";
  agent_id = "swarm-mcp-server";
  role = coordinator;
  swarm_id = "";
  issued_at = 0;
  expires_at = started + 87600 * 3600000000000;
  token_string = "";
}

-- The types whose channels the constructor makes.
abbrev pub built_in : List ChannelType
built_in =
    task_updates ∷ agent_presence ∷ events ∷ context_sync ∷ git_coordination ∷ broadcasts ∷ []

module _ {C : Type 0} where
  unfoldable pub channel : (serial : ℕ) → ChannelSpec → (swarm_id : String) → Channel C
  unfolding topic_of
  channel serial spec swarm_id = record {
    serial = serial;
    spec = spec;
    full_topic = topic_of spec;
    swarm_id = swarm_id;
    message_cb = none;
  }

  unfoldable pub on_message : Channel C → C → Channel C
  on_message c cb = record c { message_cb = some cb }

  unfoldable pub remove : ChannelManager C → ChannelType → (name : String) → ChannelManager C
  unfolding key
  remove m t name = record m { channels = erase (key t name) m.channels }

  abbrev pub no_channels : (namespace swarm_id : String) → ChannelManager C
  no_channels namespace swarm_id = record {
    namespace = namespace;
    swarm_id = swarm_id;
    channels = [];
    made = 0;
  }

module _ (lib : JsonLib) {C : Type 0} where
  open lib use {Value, object, text, number}

  unfoldable pub publish : Channel C → Value → AuthToken → ClientCall Value
  publish c payload token = publish_signed c.full_topic payload token c.spec.qos c.spec.retained

  unfoldable pub publish_unsigned : Channel C → Value → (started : ℕ) → ClientCall Value
  publish_unsigned c payload started =
      publish_signed c.full_topic payload
        (record (internal_token started) { swarm_id = c.swarm_id }) c.spec.qos c.spec.retained

  -- A new channel, stored under its key, in place of one that is there.
  unfoldable pub create :
      ChannelManager C
      → ChannelType
      → (name : String) → (qos : ℕ) → ChannelEffect C Value (Channel C)
  unfolding key channel
  create m t name qos =
      let spec : ChannelSpec = record {
        kind = t;
        namespace = m.namespace;
        name = name;
        qos = qos;
        retained = false;
      } in
      let c = channel m.made spec m.swarm_id in
      record {
        state = record m { channels = insert (key t name) c m.channels; made = suc m.made };
        result = c;
        calls = subscribe_verified (c.full_topic ++ "/#") qos m.made ∷ [];
      }

  unfoldable pub get :
      ChannelManager C → ChannelType → (name : String) → ChannelEffect C Value (Channel C)
  unfolding key create
  get m t name = elim (lookup (key t name) m.channels) [
    | some c ↦ record { state = m; result = c; calls = [] }
    | none ↦ create m t name 1
  ]

  abbrev pub create_all : List ChannelType → ChannelManager C → ChannelManager C
  create_all [] m = m
  create_all (t ∷ ts) m = create_all ts (create m t "" 1).state

  unfoldable pub channel_manager : (namespace swarm_id : String) → ChannelManager C
  channel_manager namespace swarm_id = create_all built_in (no_channels namespace swarm_id)

  -- The message goes out with what `get` asks of the client before it.
  unfoldable pub broadcast :
      ChannelManager C → Value → AuthToken → ChannelManager C × List (ClientCall Value)
  unfolding get publish
  broadcast m message token =
      let got = get m broadcasts "" in
      (got.state, got.calls ⧺ publish got.result message token ∷ [])

  unfoldable pub broadcast_event :
      ChannelManager C
      → (now : ℕ) → (event_type : String) → (value : Value) → AuthToken
      → ChannelManager C × List (ClientCall Value)
  unfolding broadcast
  broadcast_event m now event_type value token =
      broadcast m
        (object (
          ("type", text event_type) ∷ ("timestamp", number (to_millis now)) ∷ ("data", value) ∷ []))
        token
