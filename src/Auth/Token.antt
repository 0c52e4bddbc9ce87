-- ===== src/Auth/Token.antt =====
-- Tokens as texts: the payload, the signature behind the last dot, and the bearer header.
use Prim.Native.Char.{Char, code}
use Prim.Native.String.{[], ◌∷◌, ◌++◌}
use Prim.Native.String.append
use text.Mathlib.TextEquality.{Char-path}
use swarm_mcp.Prelude.{
  ℕ, zero, suc, ◌/◌, ◌%◌, String, ◌≡◌, ◌≢◌, refl, ap, subst, ◌∙◌, inl, inr, Option-cases,
  Bool-cases, sym, Bool, true, false, ◌||◌, Option, none, some, arith, if◌then◌else◌, ltb,
}
use swarm_mcp.Text.{◌=ᵇ◌}
use swarm_mcp.Auth.Role.{Role, role_to_str}

pub record AuthToken : Type 0 where
  pub token_id : String
  pub agent_id : String
  pub role : Role
  pub swarm_id : String
  pub issued_at : ℕ
  pub expires_at : ℕ
  pub token_string : String

-- Points in time are nanoseconds since the epoch.
unfoldable pub is_expired : AuthToken → ℕ → Bool
is_expired t now = ltb t.expires_at now

-- The decimal digits of a number, as std::format prints it.
digit : ℕ → Char
digit d =
    if d =ᵇ 0
    then "0"
    else if d =ᵇ 1
    then "1"
    else if d =ᵇ 2
    then "2"
    else if d =ᵇ 3
    then "3"
    else if d =ᵇ 4
    then "4"
    else if d =ᵇ 5
    then "5"
    else if d =ᵇ 6
    then "6"
    else if d =ᵇ 7
    then "7"
    else if d =ᵇ 8
    then "8"
    else "9"

-- A number below 10 ^ k has its digits in k rounds; n rounds are always enough.
decimal_loop : ℕ → ℕ → String → String
unfolding digit
decimal_loop zero n acc = acc
decimal_loop (suc rounds) n acc =
    let more = decimal_loop rounds (n / 10) (digit (n % 10) ∷ acc) in
    if ltb n 10 then digit n ∷ acc else more

unfoldable pub decimal : ℕ → String
unfolding decimal_loop
decimal n = decimal_loop (suc n) n []

-- {token_id}:{agent_id}:{role}:{swarm_id}:{expires_epoch_ms}
unfoldable pub token_payload : String → String → Role → String → ℕ → String
unfolding decimal
token_payload token_id agent_id role swarm_id expires_at =
    token_id
    ++ (":"
        ++ (agent_id
            ++ (":"
                ++ (role_to_str role
                    ++ (":" ++ (swarm_id ++ (":" ++ decimal (expires_at / 1000000))))))))

unfoldable pub token_text : String → String → String
token_text payload signature = payload ++ ("." ++ signature)

-- The parts before and behind `token_str.rfind('.')`.
unfoldable pub split_last_dot : String → Option (String × String)
split_last_dot [] = none
split_last_dot (c ∷ s) = elim (split_last_dot s) [
  | some (payload, signature) ↦ some (c ∷ payload, signature)
  | none ↦ if code c =ᵇ b'.' then some ([], s) else none
]

-- No dot in a signature: it is a text of hexadecimal digits.
abbrev pub HasNoDot : String → Type 0
HasNoDot [] = Unit
HasNoDot (c ∷ s) = (code c ≢ b'.') × HasNoDot s

split_last_dot-no_dot : (s : String) → HasNoDot s → split_last_dot s ≡ none
unfolding split_last_dot
split_last_dot-no_dot [] h = refl
split_last_dot-no_dot (c ∷ s) h = ground (arith, split_last_dot-no_dot s h.1)

split_last_dot-dot : (s : String) → HasNoDot s → split_last_dot ("." ++ s) ≡ some ([], s)
unfolding split_last_dot
split_last_dot-dot s h =
    ap split_last_dot (append.cons "." [] s ∙ ap (λ u. "." ∷ u) (append.nil s))
    ∙ ground (arith, split_last_dot-no_dot s h)

-- The last dot of a token text is the one in front of its signature.
pub split_last_dot-token_text :
    (payload signature : String)
    → HasNoDot signature
    → split_last_dot (token_text payload signature) ≡ some (payload, signature)
unfolding token_text split_last_dot
split_last_dot-token_text [] signature h =
    ap split_last_dot (append.nil ("." ++ signature)) ∙ split_last_dot-dot signature h
split_last_dot-token_text (c ∷ payload) signature h =
    ap split_last_dot (append.cons c payload ("." ++ signature))
    ∙ ground (arith, split_last_dot-token_text payload signature h)

HasNoDot-of_split_last_dot : (s : String) → split_last_dot s ≡ none → HasNoDot s
unfolding split_last_dot
HasNoDot-of_split_last_dot [] h = tt
HasNoDot-of_split_last_dot (c ∷ s) h = elim (Option-cases (split_last_dot s)) [
  | inl e ↦ (λ dot. absurd (ground arith), HasNoDot-of_split_last_dot s e)
  | inr ((payload, signature), e) ↦ absurd (ground arith)
]

-- What is read as a payload and a signature is the text around a dot, with no dot after it.
pub split_last_dot-some :
    (s payload signature : String)
    → split_last_dot s ≡ some (payload, signature)
    → (s ≡ payload ++ ("." ++ signature)) × HasNoDot signature
unfolding split_last_dot
split_last_dot-some [] payload signature h = absurd (ground arith)
split_last_dot-some (c ∷ s) payload signature h = elim (Option-cases (split_last_dot s)) [
  | inr ((p, q), e) ↦
      let (rest, free) = split_last_dot-some s p q e in
      let same : (c ∷ p ≡ payload) × (q ≡ signature) = (ground arith, ground arith) in
      (
        ap (λ r. c ∷ r) rest
            ∙ sym (append.cons c p ("." ++ q))
            ∙ (λ i. same.0 i ++ ("." ++ same.1 i)),
        subst HasNoDot same.1 free,
      )
  | inl e ↦ elim (Bool-cases (code c =ᵇ b'.')) [
    | inl dot ↦
        let same : (◌≡◌ {A = String} [] payload) × (s ≡ signature) = (ground arith, ground arith) in
        let is_dot : c ≡ "." = Char-path c "." (ground arith) in
        (
          (λ i. is_dot i ∷ s)
              ∙ sym (append.cons "." [] s ∙ ap (λ u. "." ∷ u) (append.nil s))
              ∙ sym (append.nil ("." ++ s))
              ∙ (λ i. same.0 i ++ ("." ++ same.1 i)),
          subst HasNoDot same.1 (HasNoDot-of_split_last_dot s e),
        )
    | inr other ↦ absurd (ground arith)
  ]
]

-- The rest of `s` behind `prefix`, where `s` begins with it.
unfoldable pub strip_prefix : String → String → Option String
strip_prefix [] s = some s
strip_prefix (c ∷ p) [] = none
strip_prefix (c ∷ p) (d ∷ s) = if code c =ᵇ code d then strip_prefix p s else none

blank : Char → Bool
blank c = code c =ᵇ 32 || code c =ᵇ 13 || code c =ᵇ 10

-- `c` in front of what is left of the rest; a blank at the end goes.
put_back : Char → Bool → String → String
put_back c true [] = []
put_back c false [] = c ∷ []
put_back c b (d ∷ r) = c ∷ (d ∷ r)

-- `while (!token.empty() && blank(token.back())) token.pop_back();`
unfoldable pub trim_end : String → String
unfolding blank put_back
trim_end [] = []
trim_end (c ∷ s) = put_back c (blank c) (trim_end s)

-- `auth_header.size() > 7` asks for a rest that is not empty.
unfoldable pub extract_bearer : String → Option String
unfolding strip_prefix trim_end
extract_bearer auth_header = elim (strip_prefix "Bearer " auth_header) [
  | none ↦ none
  | some [] ↦ none
  | some (c ∷ rest) ↦ some (trim_end (c ∷ rest))
]

-- A text that ends in no blank.
abbrev pub EndsClean : String → Type 0
EndsClean s = trim_end s ≡ s

put_back-EndsClean :
    (c : Char) (b : Bool) (u : String) → blank c ≡ b → EndsClean u → EndsClean (put_back c b u)
unfolding trim_end
put_back-EndsClean c true [] e h = refl
put_back-EndsClean c false [] e h = ap (λ b. put_back c b []) e
put_back-EndsClean c true (d ∷ r) e h =
    ap (put_back c (blank c)) h ∙ ap (λ b. put_back c b (d ∷ r)) e
put_back-EndsClean c false (d ∷ r) e h =
    ap (put_back c (blank c)) h ∙ ap (λ b. put_back c b (d ∷ r)) e

pub trim_end_idem : (s : String) → EndsClean (trim_end s)
unfolding trim_end
trim_end_idem [] = refl
trim_end_idem (c ∷ s) = put_back-EndsClean c (blank c) (trim_end s) refl (trim_end_idem s)

strip_prefix-append : (p s : String) → strip_prefix p (p ++ s) ≡ some s
unfolding strip_prefix
strip_prefix-append [] s = ap (strip_prefix []) (append.nil s)
strip_prefix-append (c ∷ p) s =
    ap (strip_prefix (c ∷ p)) (append.cons c p s) ∙ ground (arith, strip_prefix-append p s)

-- A token that is not empty is read back from behind `Bearer `, less the blanks at its end.
pub extract_bearer-append :
    (token : String) → token ≢ [] → extract_bearer ("Bearer " ++ token) ≡ some (trim_end token)
unfolding extract_bearer
extract_bearer-append [] h = absurd (h refl)
extract_bearer-append (c ∷ s) h = rw (strip_prefix-append "Bearer " (c ∷ s), extract_bearer)

-- What `extract_bearer` reads never ends in a blank.
pub extract_bearer-EndsClean :
    (header token : String) → extract_bearer header ≡ some token → EndsClean token
unfolding extract_bearer
extract_bearer-EndsClean header token h = elim (Option-cases (strip_prefix "Bearer " header)) [
  | inl e ↦ cc (rw (e, extract_bearer) at h)
  | inr ([], e) ↦ cc (rw (e, extract_bearer) at h)
  | inr (c ∷ rest, e) ↦
      let same : trim_end (c ∷ rest) ≡ token = ground arith in
      subst EndsClean same (trim_end_idem (c ∷ rest))
]
