-- ===== src/Mqtt/AclLaws.antt =====
-- What the rules that a client starts with allow, and what an added rule can change.
use Prim.Native.String.{◌++◌}
use swarm_mcp.Prelude.{
  String, ◌≡◌, ◌↔◌, ◌≢◌, refl, ap, inl, inr, Bool, true, List, [], ◌∷◌, ◌++◌ as ◌⧺◌, map, In, arith,
  Bool-cases,
}
use swarm_mcp.Auth.Role.{Role, coordinator, worker, observer}
use swarm_mcp.Mqtt.Acl.{
  MqttAclRule, MqttTopicAuth, under, default_rule, default_rules, prefix_of, mqtt_topic_auth,
  publish_loop, can_publish, subscribe_loop, can_subscribe, add_rule,
}

-- The topic begins with the swarm's prefix and one of the names.
abbrev pub UnderOneOf : String → List String → String → Type 0
UnderOneOf prefix names topic = (n : String) × In n names × (under (prefix ++ n) topic ≡ true)

abbrev pub shared_names : List String
shared_names = "tasks" ∷ "events" ∷ "context" ∷ "git" ∷ "agents" ∷ "broadcast" ∷ []

abbrev pub MayPublish : String → Role → String → Type 0
MayPublish swarm_id coordinator topic = Unit
MayPublish swarm_id worker topic = UnderOneOf (prefix_of swarm_id) shared_names topic
MayPublish swarm_id observer topic = ⊥

publish_rules : String → List String → List MqttAclRule
publish_rules prefix names = map (λ n. default_rule (prefix ++ n) (coordinator ∷ worker ∷ [])) names

subscribe_loop_shared :
    (prefix topic : String) (role : Role) (names : List String)
    → (subscribe_loop (under (prefix ++ "#") topic) (publish_rules prefix names) role topic ≡ true)
      ↔ UnderOneOf prefix (names ⧺ "#" ∷ []) topic
unfolding subscribe_loop publish_rules default_rule
subscribe_loop_shared prefix topic role [] = (
  λ e. ("#", inl refl, e),
  λ u. elim u.1 [ inl e ↦ cc (u.2, ap (λ i. under (prefix ++ i) topic) e) | inr n ↦ absurd n ],
)
subscribe_loop_shared prefix topic role (n ∷ ns) =
    let (to, from) = subscribe_loop_shared prefix topic role ns in
    elim (Bool-cases (under (prefix ++ n) topic)) [
      | inl hit ↦ (λ e. (n, inl refl, hit), λ u. ground arith)
      | inr miss ↦ (
        λ e. let (k, k_in, k_under) = to (ground arith) in (k, inr k_in, k_under),
        λ u. elim u.1 [
          | inl e ↦ absurd (cc (u.2, miss, ap (λ i. under (prefix ++ i) topic) e))
          | inr m ↦ ground (arith, from (u.0, m, u.2))
        ],
      )
    ]

-- The roles that may publish have no say on who may subscribe.
subscribe_loop-default :
    (prefix topic : String) (role : Role) (otherwise : Bool)
    → subscribe_loop otherwise (default_rules prefix) role topic
      ≡ subscribe_loop otherwise (publish_rules prefix (shared_names ⧺ "admin" ∷ [])) role topic
unfolding subscribe_loop default_rules publish_rules default_rule
subscribe_loop-default prefix topic role otherwise = refl

loops-append :
    (rules : List MqttAclRule) (rule : MqttAclRule) (role : Role) (topic : String)
    (otherwise : Bool) (old : MqttAclRule)
    → In old rules
    → under old.topic_prefix topic ≡ true
    → (publish_loop (rules ⧺ rule ∷ []) role topic ≡ publish_loop rules role topic)
      × (subscribe_loop otherwise (rules ⧺ rule ∷ []) role topic
          ≡ subscribe_loop otherwise rules role topic)
unfolding publish_loop subscribe_loop
loops-append [] rule role topic otherwise old at covers = absurd at
loops-append (r ∷ rs) rule role topic otherwise old at covers =
    elim (Bool-cases (under r.topic_prefix topic)) [
      | inl hit ↦ (ground arith, ground arith)
      | inr miss ↦ elim at [
        | inl e ↦ absurd (cc (covers, miss, ap (λ (q : MqttAclRule). under q.topic_prefix topic) e))
        | inr m ↦
            let (p, s) = loops-append rs rule role topic otherwise old m covers in
            (ground arith, ground arith)
      ]
    ]

-- With the rules of a new client a role that is not the coordinator subscribes exactly to the topics
-- under the swarm's prefix and one of the six shared names, `admin` or `#`.
pub can_subscribe_iff :
    (swarm_id : String) (role : Role) (topic : String)
    → role ≢ coordinator
    → (can_subscribe (mqtt_topic_auth swarm_id) role topic ≡ true)
      ↔ UnderOneOf (prefix_of swarm_id) (shared_names ⧺ "admin" ∷ "#" ∷ []) topic
unfolding can_subscribe mqtt_topic_auth
can_subscribe_iff swarm_id role topic other =
    let (to, from) =
      subscribe_loop_shared (prefix_of swarm_id) topic role (shared_names ⧺ "admin" ∷ []) in
    let same =
      subscribe_loop-default (prefix_of swarm_id) topic role
        (under (prefix_of swarm_id ++ "#") topic) in
    (λ h. to (ground arith), λ u. let e = from u in ground arith)

-- A rule that is added has no say on a topic that a rule already covers.
pub can_publish-add_rule :
    (auth : MqttTopicAuth) (rule : MqttAclRule) (role : Role) (topic : String)
    → (old : MqttAclRule) → In old auth.rules
    → under old.topic_prefix topic ≡ true
    → (can_publish (add_rule auth rule) role topic ≡ can_publish auth role topic)
      × (can_subscribe (add_rule auth rule) role topic ≡ can_subscribe auth role topic)
unfolding can_publish can_subscribe add_rule
can_publish-add_rule auth rule role topic old at covers =
    let (p, s) =
      loops-append auth.rules rule role topic (under (auth.swarm_prefix ++ "#") topic) old at
        covers in
    (ground arith, ground arith)
