-- ===== src/Mqtt/Topics.antt =====
-- Which topics a callback's filter covers. A topic is the list of its codes.
use swarm_mcp.Prelude.{
  ℕ, ◌≡◌, ◌≢◌, ◌↔◌, refl, sym, ap, ◌∙◌, ◌++◌, In, subst, inl, inr, Bool, true, false, not, ◌&&◌,
  ◌||◌, List, [], ◌∷◌, arith, Bool-cases, if◌then◌else◌,
}
use swarm_mcp.Text.{◌=ᵇ◌}

abbrev pub Level : Type 0
Level = List ℕ

abbrev pub hash : Level
hash = b'#' ∷ []

abbrev pub plus : Level
plus = b'+' ∷ []

unfoldable pub same : Level → Level → Bool
same [] [] = true
same [] (d ∷ t) = false
same (c ∷ s) [] = false
same (c ∷ s) (d ∷ t) = c =ᵇ d && same s t

unfoldable pub has_code : ℕ → List ℕ → Bool
has_code c [] = false
has_code c (d ∷ s) = d =ᵇ c || has_code c s

-- `c` in front of the first part.
unfoldable pub onto_first : ℕ → List Level → List Level
onto_first c [] = (c ∷ []) ∷ []
onto_first c (p ∷ ps) = (c ∷ p) ∷ ps

unfoldable pub split : List ℕ → List Level
unfolding onto_first
split [] = [] ∷ []
split (c ∷ s) = let rest = split s in if c =ᵇ b'/' then [] ∷ rest else onto_first c rest

unfoldable pub match_levels : (filter topic : List Level) → Bool
unfolding same
match_levels [] [] = true
match_levels [] (t ∷ ts) = false
match_levels (f ∷ fs) [] = same f hash
match_levels (f ∷ fs) (t ∷ ts) =
    let rest = match_levels fs ts in
    if same f hash
    then true
    else if same f plus
    then rest
    else if not (same f t)
    then false
    else rest

unfoldable pub topic_matches : (filter topic : List ℕ) → Bool
topic_matches filter topic =
    if not (has_code b'+' filter) then false else match_levels (split filter) (split topic)

-- The topics that a filter covers, level by level, as MQTT has it.
pub data Covers : List Level → List Level → Type 0 where
  at_end : Covers [] []
  all_below : {fs ts : List Level} → Covers (hash ∷ fs) ts
  any_level : {fs ts : List Level} {t : Level} → Covers fs ts → Covers (plus ∷ fs) (t ∷ ts)
  this_level : {fs ts : List Level} {t : Level} → Covers fs ts → Covers (t ∷ fs) (t ∷ ts)

pub same-true : (s t : Level) → same s t ≡ true → s ≡ t
unfolding same
same-true [] [] h = refl
same-true [] (d ∷ t) h = cc
same-true (c ∷ s) [] h = cc
same-true (c ∷ s) (d ∷ t) h = let e = same-true s t (ground arith) in ground arith

pub same_refl : (s : Level) → same s s ≡ true
unfolding same
same_refl [] = refl
same_refl (c ∷ s) = ground (arith, same_refl s)

pub Covers-of_match_levels : (fs ts : List Level) → match_levels fs ts ≡ true → Covers fs ts
unfolding match_levels
Covers-of_match_levels [] [] h = at_end
Covers-of_match_levels [] (t ∷ ts) h = cc
Covers-of_match_levels (f ∷ fs) [] h =
    subst (λ g. Covers (g ∷ fs) []) (sym (same-true f hash h)) all_below
Covers-of_match_levels (f ∷ fs) (t ∷ ts) h = elim (Bool-cases (same f hash)) [
  | inl a ↦ subst (λ g. Covers (g ∷ fs) (t ∷ ts)) (sym (same-true f hash a)) all_below
  | inr a ↦ elim (Bool-cases (same f plus)) [
    | inl b ↦
        subst (λ g. Covers (g ∷ fs) (t ∷ ts)) (sym (same-true f plus b))
          (any_level (Covers-of_match_levels fs ts (ground arith)))
    | inr b ↦
        subst (λ g. Covers (g ∷ fs) (t ∷ ts)) (sym (same-true f t (ground arith)))
          (this_level (Covers-of_match_levels fs ts (ground arith)))
  ]
]

pub match_levels-of_Covers : (fs ts : List Level) → Covers fs ts → match_levels fs ts ≡ true
unfolding match_levels
match_levels-of_Covers _ _ at_end = refl
match_levels-of_Covers _ [] all_below = same_refl hash
match_levels-of_Covers _ (t ∷ ts) all_below = ground (arith, same_refl hash)
match_levels-of_Covers _ _ (any_level {fs = fs} {ts = ts} c) =
    ground (arith, same_refl plus, match_levels-of_Covers fs ts c)
match_levels-of_Covers _ _ (this_level {fs = fs} {ts = ts} {t = t} c) =
    ground (arith, same_refl t, match_levels-of_Covers fs ts c)

-- The levels of a text: between its slashes, also where there is nothing between them.
pub data IsLevels : List Level → List ℕ → Type 0 where
  last_level : {l : Level} → ¬ In b'/' l → IsLevels (l ∷ []) l
  level :
      {l : Level} {ls : List Level} {s : List ℕ}
      → ¬ In b'/' l
      → IsLevels ls s
      → IsLevels (l ∷ ls) (l ++ b'/' ∷ s)

IsLevels-onto_first :
    (c : ℕ) (ls : List Level) (s : List ℕ)
    → b'/' ≢ c
    → IsLevels ls s
    → IsLevels (onto_first c ls) (c ∷ s)
unfolding onto_first
IsLevels-onto_first c _ _ ne (last_level free) =
    last_level (λ h. elim h [ inl e ↦ ne e | inr r ↦ free r ])
IsLevels-onto_first c _ _ ne (level free rest) =
    level (λ h. elim h [ inl e ↦ ne e | inr r ↦ free r ]) rest

split-IsLevels : (s : List ℕ) → IsLevels (split s) s
unfolding split
split-IsLevels [] = last_level (λ h. h)
split-IsLevels (c ∷ s) = elim (Bool-cases (c =ᵇ b'/')) [
  | inl slash ↦
      let here : c ≡ b'/' = ground arith in
      rw (slash) (
        subst (λ d. IsLevels ([] ∷ split s) (d ∷ s)) (sym here) (level (λ h. h) (split-IsLevels s)))
  | inr other ↦
      rw (other) (IsLevels-onto_first c (split s) s (λ e. ground arith) (split-IsLevels s))
]

split-level : (l : Level) → ¬ In b'/' l → split l ≡ l ∷ []
unfolding split onto_first
split-level [] free = refl
split-level (c ∷ l) free =
    let rest = split-level l (λ h. free (inr h)) in
    let other : b'/' ≢ c = λ e. free (inl e) in ground (arith, rest)

split-append : (l : Level) (s : List ℕ) → ¬ In b'/' l → split (l ++ b'/' ∷ s) ≡ l ∷ split s
unfolding split onto_first
split-append [] s free = refl
split-append (c ∷ l) s free =
    let rest = split-append l s (λ h. free (inr h)) in
    let other : b'/' ≢ c = λ e. free (inl e) in ground (arith, rest)

split_unique : (ls : List Level) (s : List ℕ) → IsLevels ls s → split s ≡ ls
split_unique _ _ (last_level {l = l} free) = split-level l free
split_unique _ _ (level {l = l} {ls = ls} {s = s} free rest) =
    split-append l s free ∙ ap (λ r. l ∷ r) (split_unique ls s rest)

has_code-true : (c : ℕ) (s : List ℕ) → has_code c s ≡ true → In c s
unfolding has_code
has_code-true c [] h = absurd (cc h)
has_code-true c (d ∷ s) h = elim (Bool-cases (d =ᵇ c)) [
  | inl e ↦ inl (ground arith)
  | inr n ↦ inr (has_code-true c s (ground arith))
]

has_code-of_In : (c : ℕ) (s : List ℕ) → In c s → has_code c s ≡ true
unfolding has_code
has_code-of_In c [] h = absurd h
has_code-of_In c (d ∷ s) (inl e) = ground arith
has_code-of_In c (d ∷ s) (inr r) = ground (arith, has_code-of_In c s r)

-- `topic_matches` answers true exactly for a filter with a `+` in it whose levels, between its slashes,
-- cover those of the topic one by one: `+` is one level, `#` is all that follows, also nothing.
pub topic_matches_iff :
    (filter topic : List ℕ)
    → (topic_matches filter topic ≡ true) ↔ (
        In b'+' filter
        × (fs : List Level) × (ts : List Level) × IsLevels fs filter
        × IsLevels ts topic
        × Covers fs ts)
unfolding topic_matches
topic_matches_iff filter topic = (
  λ h. (
    has_code-true b'+' filter (ground arith),
    split filter,
    split topic,
    split-IsLevels filter,
    split-IsLevels topic,
    Covers-of_match_levels (split filter) (split topic) (ground arith),
  ),
  λ h.
      let (wild, fs, ts, in_filter, in_topic, covers) = h in
      let plus_there = has_code-of_In b'+' filter wild in
      let matched = match_levels-of_Covers fs ts covers in
      ground (arith, split_unique fs filter in_filter, split_unique ts topic in_topic),
)
