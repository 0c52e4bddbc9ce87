-- ===== src/Mqtt/Matching.antt =====
-- Which callback `MqttClient::handle_message` calls.
use swarm_mcp.Prelude.{
  ℕ, String, ◌≡◌, ◌⊎◌, refl, sym, subst, ap, ◌∙◌, ◌≢◌, ◌++◌, In-append, split_branches, inl, inr,
  Bool-cases, true, false, Option, none, some, List, [], ◌∷◌, In, arith,
}
use mathlib.Core.List.{append-nil, append_assoc}
use swarm_mcp.Dict.{Dict}
use swarm_mcp.Text.{codes, ◌=ᵇ◌}
use swarm_mcp.Mqtt.Topics.{
  Level, hash, same, Covers, same-true, same_refl, Covers-of_match_levels, match_levels-of_Covers,
}
use swarm_mcp.Mqtt.Subscriptions.{last_part, parts, mqtt_match, first_match}

-- The parts of a text as std::getline reads them: between its slashes, without an empty one at the
-- end.
pub data IsParts : List Level → List ℕ → Type 0 where
  no_part : IsParts [] []
  last_part_of : {c : ℕ} {l : Level} → ¬ In b'/' (c ∷ l) → IsParts ((c ∷ l) ∷ []) (c ∷ l)
  part :
      {l : Level} {ls : List Level} {s : List ℕ}
      → ¬ In b'/' l
      → IsParts ls s
      → IsParts (l ∷ ls) (l ++ b'/' ∷ s)

In-snoc : (l : Level) (c : ℕ) → ¬ In b'/' l → b'/' ≢ c → ¬ In b'/' (l ++ c ∷ [])
In-snoc l c free ne h = elim (In-append b'/' l (c ∷ []) h) [
  | inl a ↦ free a
  | inr b ↦ elim b [ inl e ↦ ne e | inr r ↦ r ]
]

last_part-IsParts : (l : Level) → ¬ In b'/' l → IsParts (last_part l) l
last_part-IsParts [] free = no_part
last_part-IsParts (c ∷ l) free = last_part_of free

parts-IsParts : (s : List ℕ) (l : Level) → ¬ In b'/' l → IsParts (parts s l) (l ++ s)
unfolding parts
parts-IsParts [] l free =
    subst (IsParts (last_part l)) (sym (append-nil l)) (last_part-IsParts l free)
parts-IsParts (c ∷ s) l free = elim (Bool-cases (c =ᵇ b'/')) [
  | inl slash ↦
      let here : c ≡ b'/' = ground arith in
      rw (slash, parts)
        (subst (λ d. IsParts (l ∷ parts s []) (l ++ d ∷ s)) (sym here)
          (part free (parts-IsParts s [] (λ h. h))))
  | inr other ↦
      rw (other, parts)
        (subst (IsParts (parts s (l ++ c ∷ []))) (append_assoc l (c ∷ []) s)
          (parts-IsParts s (l ++ c ∷ []) (In-snoc l c free (λ e. ground arith))))
]

parts-last : (s : List ℕ) (l : Level) → ¬ In b'/' s → parts s l ≡ last_part (l ++ s)
unfolding parts
parts-last [] l free = ap last_part (sym (append-nil l))
parts-last (c ∷ s) l free =
    let rest = parts-last s (l ++ c ∷ []) (λ h. free (inr h)) in
    let other : b'/' ≢ c = λ e. free (inl e) in ground (arith, rest, append_assoc l (c ∷ []) s)

parts-part :
    (p : Level) (s : List ℕ) (l : Level)
    → ¬ In b'/' p
    → parts (p ++ b'/' ∷ s) l ≡ (l ++ p) ∷ parts s []
unfolding parts
parts-part [] s l free = ap (λ q. q ∷ parts s []) (sym (append-nil l))
parts-part (c ∷ p) s l free =
    let rest = parts-part p s (l ++ c ∷ []) (λ h. free (inr h)) in
    let other : b'/' ≢ c = λ e. free (inl e) in ground (arith, rest, append_assoc l (c ∷ []) p)

parts_unique : (ps : List Level) (s : List ℕ) → IsParts ps s → parts s [] ≡ ps
unfolding parts
parts_unique _ _ no_part = refl
parts_unique _ _ (last_part_of {c = c} {l = l} free) = parts-last (c ∷ l) [] free
parts_unique _ _ (part {l = l} {ls = ls} {s = s} free rest) =
    parts-part l s [] free ∙ ap (λ r. l ∷ r) (parts_unique ls s rest)

-- A pattern stands for a topic: it is the topic, or `#`, or its parts cover those of the topic.
abbrev pub StandsFor : (pattern topic : List ℕ) → Type 0
StandsFor pattern topic =
    ((pattern ≡ topic) ⊎ (pattern ≡ hash))
    ⊎ ((ps : List Level) × (ts : List Level) × IsParts ps pattern × IsParts ts topic × Covers ps ts)

mqtt_match-true :
    (pattern topic : List ℕ) → mqtt_match pattern topic ≡ true → StandsFor pattern topic
unfolding mqtt_match
mqtt_match-true pattern topic h = elim (Bool-cases (same pattern topic)) [
  | inl e ↦ inl (inl (same-true pattern topic e))
  | inr n ↦ elim (Bool-cases (same pattern hash)) [
    | inl e ↦ inl (inr (same-true pattern hash e))
    | inr k ↦ inr (
      parts pattern [],
      parts topic [],
      parts-IsParts pattern [] (λ h. h),
      parts-IsParts topic [] (λ h. h),
      Covers-of_match_levels (parts pattern []) (parts topic []) (ground arith),
    )
  ]
]

mqtt_match_of_StandsFor :
    (pattern topic : List ℕ) → StandsFor pattern topic → mqtt_match pattern topic ≡ true
unfolding mqtt_match
mqtt_match_of_StandsFor pattern topic (inl (inl e)) = ground (arith, same_refl topic)
mqtt_match_of_StandsFor pattern topic (inl (inr e)) = ground (arith, same_refl hash)
mqtt_match_of_StandsFor pattern topic (inr (ps, ts, in_pattern, in_topic, c)) = ground (
  arith,
  match_levels-of_Covers ps ts c,
  parts_unique ps pattern in_pattern,
  parts_unique ts topic in_topic,
)

module _ {C : Type 0} where
  -- What is chosen for a topic: the callback of a pattern that stands for it, or nothing where none
  -- does.
  abbrev pub IsChosen : Dict C → String → Option C → Type 0
  IsChosen callbacks topic none =
      (pattern : String) (callback : C)
      → In (pattern, callback) callbacks
      → ¬ StandsFor (codes pattern) (codes topic)
  IsChosen callbacks topic (some callback) =
      (pattern : String) × In (pattern, callback) callbacks
      × StandsFor (codes pattern) (codes topic)

  later-IsChosen :
      (p : String) (b : C) (m : Dict C) (topic : String) (o : Option C)
      → mqtt_match (codes p) (codes topic) ≡ false
      → IsChosen m topic o
      → IsChosen ((p, b) ∷ m) topic o
  later-IsChosen p b m topic none miss old = λ pattern callback there stands. elim there [
    | inl e ↦
        let same_pattern : pattern ≡ p = λ i. (e i).0 in
        cc (mqtt_match_of_StandsFor (codes pattern) (codes topic) stands, same_pattern, miss)
    | inr r ↦ old pattern callback r stands
  ]
  later-IsChosen p b m topic (some callback) miss old = (old.0, inr old.1, old.2)

  -- The callback that is called for a topic is that of a pattern that is the topic, or `#`, or whose
  -- parts cover those of the topic one by one; none is called only if no pattern is so. The parts lie
  -- between the slashes, and an empty part at the end does not count.
  pub first_match-IsChosen :
      (callbacks : Dict C) (topic : String) → IsChosen callbacks topic (first_match callbacks topic)
  unfolding first_match
  first_match-IsChosen [] topic = λ pattern callback there stands. there
  first_match-IsChosen ((p, b) ∷ m) topic =
      split_branches (IsChosen ((p, b) ∷ m) topic) (mqtt_match (codes p) (codes topic)) _ _
        (λ hit. (p, inl refl, mqtt_match-true (codes p) (codes topic) hit))
        (λ miss.
          later-IsChosen p b m topic (first_match m topic) miss (first_match-IsChosen m topic))
