-- ===== src/Mqtt/ChannelTable.antt =====
-- The table of channels after any calls.
use Prim.Native.Char.{Char, code}
use Prim.Native.String.{[], ◌∷◌, ◌++◌}
use Prim.Native.String.append
use swarm_mcp.Prelude.{
  ℕ, if◌then◌else◌, String, ◌≡◌, refl, sym, ◌∙◌, ap, subst, inl, inr, some, List, [] as nil,
  ◌∷◌ as ◌⸬◌, arith, Option-cases,
}
use swarm_mcp.Text.{◌=ᵇ◌}
use swarm_mcp.Dict.{lookup, lookup-insert, insert, Every, Every-nil, Every-insert, Every-erase}
use swarm_mcp.Auth.Token.{AuthToken}
use swarm_mcp.Json.{JsonLib}
use swarm_mcp.Mqtt.Channels.{
  ChannelType, task_updates, agent_presence, events, context_sync, git_coordination, broadcasts,
  custom, Channel, ChannelManager, key, topic_of, channel, on_message, create, get, remove,
  built_in, no_channels, create_all, channel_manager, broadcast, broadcast_event,
}

abbrev digit : ChannelType → Char
digit task_updates = "0"
digit agent_presence = "1"
digit events = "2"
digit context_sync = "3"
digit git_coordination = "4"
digit broadcasts = "5"
digit custom = "6"

cons_append : (c : Char) (name : String) → (c ∷ (":" ∷ [])) ++ name ≡ c ∷ (":" ∷ name)
cons_append c name =
    append.cons c (":" ∷ []) name
    ∙ ap (λ s. c ∷ s) (append.cons ":" [] name ∙ ap (λ s. ":" ∷ s) (append.nil name))

key_lem : (t : ChannelType) (name : String) → key t name ≡ digit t ∷ (":" ∷ name)
unfolding key
key_lem task_updates name = cons_append "0" name
key_lem agent_presence name = cons_append "1" name
key_lem events name = cons_append "2" name
key_lem context_sync name = cons_append "3" name
key_lem git_coordination name = cons_append "4" name
key_lem broadcasts name = cons_append "5" name
key_lem custom name = cons_append "6" name

-- The type whose digit has the code.
abbrev numbered : ℕ → ChannelType
numbered c =
    if c =ᵇ b'0'
    then task_updates
    else if c =ᵇ b'1'
    then agent_presence
    else if c =ᵇ b'2'
    then events
    else if c =ᵇ b'3'
    then context_sync
    else if c =ᵇ b'4'
    then git_coordination
    else if c =ᵇ b'5'
    then broadcasts
    else custom

numbered-digit : (t : ChannelType) → numbered (code (digit t)) ≡ t
numbered-digit task_updates = refl
numbered-digit agent_presence = refl
numbered-digit events = refl
numbered-digit context_sync = refl
numbered-digit git_coordination = refl
numbered-digit broadcasts = refl
numbered-digit custom = refl

key-injective : (t u : ChannelType) (a b : String) → key t a ≡ key u b → (t ≡ u) × (a ≡ b)
key-injective t u a b e =
    let same : ◌≡◌ {A = String} (digit t ∷ (":" ∷ a)) (digit u ∷ (":" ∷ b)) =
      sym (key_lem t a) ∙ e ∙ key_lem u b in
    let digits : digit t ≡ digit u = cc in
    (sym (numbered-digit t) ∙ ap (λ c. numbered (code c)) digits ∙ numbered-digit u, cc)

module _ (lib : JsonLib) (C : Type 0) where
  open lib use {Value}

  pub data Call : Type 0 where
    create_channel : ChannelType → (name : String) → (qos : ℕ) → Call
    get_channel : ChannelType → (name : String) → Call
    remove_channel : ChannelType → (name : String) → Call
    listen : ChannelType → (name : String) → C → Call
    announce : (now : ℕ) → (event_type : String) → Value → AuthToken → Call

  -- `listen` is `get(type, name).on_message(cb)`, which changes the channel in the table.
  abbrev pub step : ChannelManager C → Call → ChannelManager C
  step m (create_channel t name qos) = (create lib m t name qos).state
  step m (get_channel t name) = (get lib m t name).state
  step m (remove_channel t name) = remove m t name
  step m (listen t name cb) =
      let got = get lib m t name in
      record (got.state) {
        channels = insert (key t name) (on_message got.result cb) got.state.channels;
      }
  step m (announce now event_type value token) =
      (broadcast_event lib m now event_type value token).0

  abbrev pub run : ChannelManager C → List Call → ChannelManager C
  run m nil = m
  run m (c ⸬ cs) = run (step m c) cs

  -- A channel under the key of its type and its name, with the topic of its settings.
  record Kept (ns k : String) (c : Channel C) : Type 0 where
    key : k ≡ key c.spec.kind c.spec.name
    namespace : c.spec.namespace ≡ ns
    topic : c.full_topic ≡ topic_of c.spec

  record Inv (ns : String) (m : ChannelManager C) : Type 0 where
    namespace : m.namespace ≡ ns
    kept : Every (Kept ns) m.channels

  create-Inv :
      (ns : String) (m : ChannelManager C) (t : ChannelType) (name : String) (qos : ℕ)
      → Inv ns m
      → Inv ns (create lib m t name qos).state
  unfolding create channel
  create-Inv ns m t name qos v = record {
    namespace = v.namespace;
    kept =
        Every-insert (Kept ns) (key t name) _ m.channels
          (record { key = refl; namespace = v.namespace; topic = refl }) v.kept;
  }

  -- What `get` answers is stored.
  get-found :
      (m : ChannelManager C) (t : ChannelType) (name : String)
      → lookup (key t name) (get lib m t name).state.channels ≡ some (get lib m t name).result
  unfolding get create
  get-found m t name = elim (Option-cases (lookup (key t name) m.channels)) [
    | inl missing ↦
        ground
          (arith, lookup-insert (key t name) (key t name) (create lib m t name 1).result m.channels)
    | inr (c, e) ↦ ground arith
  ]

  get-Inv :
      (ns : String) (m : ChannelManager C) (t : ChannelType) (name : String)
      → Inv ns m
      → Inv ns (get lib m t name).state
  unfolding get
  get-Inv ns m t name v = elim (Option-cases (lookup (key t name) m.channels)) [
    | inl missing ↦ subst (Inv ns) (ground arith) (create-Inv ns m t name 1 v)
    | inr (c, e) ↦ subst (Inv ns) (ground arith) v
  ]

  step-Inv : (ns : String) (m : ChannelManager C) (c : Call) → Inv ns m → Inv ns (step m c)
  unfolding remove broadcast_event broadcast on_message
  step-Inv ns m (create_channel t name qos) v = create-Inv ns m t name qos v
  step-Inv ns m (get_channel t name) v = get-Inv ns m t name v
  step-Inv ns m (remove_channel t name) v = record {
    namespace = v.namespace;
    kept = Every-erase (Kept ns) (key t name) m.channels v.kept;
  }
  step-Inv ns m (listen t name cb) v =
      let got = get lib m t name in
      let w = get-Inv ns m t name v in
      let old = w.kept (key t name) got.result (get-found m t name) in
      record {
        namespace = w.namespace;
        kept =
            Every-insert (Kept ns) (key t name) _ got.state.channels
              (record { key = old.key; namespace = old.namespace; topic = old.topic }) w.kept;
      }
  step-Inv ns m (announce now event_type value token) v = get-Inv ns m broadcasts "" v

  run-Inv : (ns : String) (m : ChannelManager C) (cs : List Call) → Inv ns m → Inv ns (run m cs)
  run-Inv ns m nil v = v
  run-Inv ns m (c ⸬ cs) v = run-Inv ns (step m c) cs (step-Inv ns m c v)

  create_all-Inv :
      (ns : String) (ts : List ChannelType) (m : ChannelManager C)
      → Inv ns m
      → Inv ns (create_all lib ts m)
  create_all-Inv ns nil m v = v
  create_all-Inv ns (t ⸬ ts) m v = create_all-Inv ns ts _ (create-Inv ns m t "" 1 v)

  new-Inv : (ns swarm_id : String) → Inv ns (channel_manager lib ns swarm_id)
  unfolding channel_manager
  new-Inv ns swarm_id =
      create_all-Inv ns built_in (no_channels ns swarm_id)
        (record { namespace = refl; kept = Every-nil (Kept ns) })

  -- After any calls on a new manager, `get` answers a channel of the type, the name and the namespace
  -- that are asked for, also where it has to make it, and the channel's topic is the one of these; and
  -- a second `get` answers the same channel and asks nothing of the client.
  pub run-get :
      (ns swarm_id : String) (cs : List Call) (t : ChannelType) (name : String)
      → let got = get lib (run (channel_manager lib ns swarm_id) cs) t name in
        (got.result.spec.kind ≡ t)
        × (got.result.spec.name ≡ name)
        × (got.result.spec.namespace ≡ ns)
        × (got.result.full_topic ≡ topic_of got.result.spec)
        × (get lib got.state t name
            ≡ record { state = got.state; result = got.result; calls = nil })
  unfolding get
  run-get ns swarm_id cs t name =
      let m = run (channel_manager lib ns swarm_id) cs in
      let got = get lib m t name in
      let v = get-Inv ns m t name (run-Inv ns _ cs (new-Inv ns swarm_id)) in
      let found = get-found m t name in
      let kept = v.kept (key t name) got.result found in
      let (same_type, same_name) =
        key-injective t got.result.spec.kind name got.result.spec.name kept.key in
      (sym same_type, sym same_name, kept.namespace, kept.topic, ground arith)
