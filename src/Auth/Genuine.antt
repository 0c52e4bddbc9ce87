-- ===== src/Auth/Genuine.antt =====
-- What the text of an accepted token says, after any calls.
use Prim.Native.String.{◌++◌}
use swarm_mcp.Prelude.{
  ℕ, ◌/◌, ◌≤◌, String, String_discrete, ◌≡◌, refl, sym, subst, inl, inr, some, List, [], ◌∷◌, In,
  ◌==◌, arith, Option-cases, both_branches,
}
use swarm_mcp.Dict.{Dict, lookup, insert}
use swarm_mcp.Auth.Role.{Role, role_to_str}
use swarm_mcp.Auth.Token.{AuthToken, decimal, token_payload, token_text}
use swarm_mcp.Auth.Provider.{
  AuthProvider, auth_provider, erase_token, revoke_token, issued, issue_token, validate_token,
  refresh_token,
}
use swarm_mcp.Auth.Validity.{validate_token_sound}
use swarm_mcp.Auth.History.{Call, issue, revoke, refresh, step, run}

-- `P` holds of each entry.
abbrev All : (String → AuthToken → Type 0) → Dict AuthToken → Type 0
All P [] = Unit
All P ((k, t) ∷ m) = P k t × All P m

module _ (P : String → AuthToken → Type 0) where
  All-insert :
      (k : String) (t : AuthToken) (m : Dict AuthToken) → P k t → All P m → All P (insert k t m)
  unfolding insert
  All-insert k t [] new old = (new, tt)
  All-insert k t ((j, u) ∷ m) new old = elim (String_discrete j k) [
    | yes hit ↦
        let e : (j, t) ∷ m ≡ insert k t ((j, u) ∷ m) = ground arith in
        subst (All P) e (subst (λ i. P i t) (sym hit) new, old.1)
    | no miss ↦
        let e : (j, u) ∷ insert k t m ≡ insert k t ((j, u) ∷ m) = ground arith in
        subst (All P) e (old.0, All-insert k t m new old.1)
  ]

  All-erase_token : (id : String) (m : Dict AuthToken) → All P m → All P (erase_token id m)
  unfolding erase_token
  All-erase_token id [] old = tt
  All-erase_token id ((k, t) ∷ m) old =
      let rest = All-erase_token id m old.1 in
      both_branches (All P) (t.token_id == id) (erase_token id m) ((k, t) ∷ erase_token id m) rest
        (old.0, rest)

  All-lookup :
      (k : String) (t : AuthToken) (m : Dict AuthToken) → All P m → lookup k m ≡ some t → P k t
  unfolding lookup
  All-lookup k t [] old e = absurd (ground arith)
  All-lookup k t ((j, u) ∷ m) old e = elim (String_discrete j k) [
    | yes hit ↦ let same : u ≡ t = ground arith in subst (λ i. P i t) hit (subst (P j) same old.0)
    | no miss ↦ All-lookup k t m old.1 (ground arith)
  ]

module _ (hmac : String → String → String) where
  -- The fields of a token, with colons between them, the expiry in milliseconds.
  abbrev pub fields_of : AuthToken → String
  fields_of t =
      t.token_id
      ++ (":"
          ++ (t.agent_id
              ++ (":"
                  ++ (role_to_str t.role
                      ++ (":" ++ (t.swarm_id ++ (":" ++ decimal (t.expires_at / 1000000))))))))

  -- A token is stored under its fields, a dot, and their signature.
  abbrev Spelled : String → String → AuthToken → Type 0
  Spelled secret k t = k ≡ fields_of t ++ ("." ++ hmac (fields_of t) secret)

  abbrev AllSpelled : String → AuthProvider → Type 0
  AllSpelled secret a = (a.swarm_secret ≡ secret) × All (Spelled secret) a.active_tokens

  issue-AllSpelled :
      (secret : String) (a : AuthProvider) (uuid : String) (now : ℕ) (agent_id : String)
      (role : Role) (swarm_id : String) (ttl : ℕ)
      → AllSpelled secret a
      → AllSpelled secret (issue_token hmac a uuid now agent_id role swarm_id ttl).0
  unfolding issue_token issued token_payload token_text
  issue-AllSpelled secret a uuid now agent_id role swarm_id ttl (same, old) =
      let t = issued hmac uuid now a.swarm_secret agent_id role swarm_id ttl in
      (
        same,
        All-insert (Spelled secret) t.token_string t a.active_tokens
            (λ i. fields_of t ++ ("." ++ hmac (fields_of t) (same i))) old,
      )

  revoke-AllSpelled :
      (secret : String) (a : AuthProvider) (id : String)
      → AllSpelled secret a
      → AllSpelled secret (revoke_token a id)
  unfolding revoke_token
  revoke-AllSpelled secret a id (same, old) =
      (same, All-erase_token (Spelled secret) id a.active_tokens old)

  step-AllSpelled :
      (secret : String) (a : AuthProvider) (c : Call)
      → AllSpelled secret a
      → AllSpelled secret (step hmac a c)
  unfolding step refresh_token
  step-AllSpelled secret a (issue uuid now agent_id role swarm_id ttl) old =
      issue-AllSpelled secret a uuid now agent_id role swarm_id ttl old
  step-AllSpelled secret a (revoke id) old = revoke-AllSpelled secret a id old
  step-AllSpelled secret a (refresh uuid now now' text ttl) old =
      elim (Option-cases (validate_token hmac a now text)) [
        | inl e ↦
            let same : a ≡ step hmac a (refresh uuid now now' text ttl) = ground arith in
            subst (AllSpelled secret) same old
        | inr (t, e) ↦
            let same : (issue_token hmac (revoke_token a t.token_id) uuid now' t.agent_id t.role
                  t.swarm_id ttl).0
                ≡ step hmac a (refresh uuid now now' text ttl) =
              ground arith in
            subst (AllSpelled secret) same (
              issue-AllSpelled secret (revoke_token a t.token_id) uuid now' t.agent_id t.role
                t.swarm_id ttl (revoke-AllSpelled secret a t.token_id old))
      ]

  run-AllSpelled :
      (secret : String) (a : AuthProvider) (cs : List Call)
      → AllSpelled secret a
      → AllSpelled secret (run hmac a cs)
  unfolding run
  run-AllSpelled secret a [] old = old
  run-AllSpelled secret a (c ∷ cs) old =
      run-AllSpelled secret (step hmac a c) cs (step-AllSpelled secret a c old)

  -- What is known of a token that is accepted.
  pub record Genuine (secret : String) (a : AuthProvider) (now : ℕ) (text : String) (t : AuthToken)
      : Type 0 where
    pub spelled : text ≡ fields_of t ++ ("." ++ hmac (fields_of t) secret)
    pub not_revoked : ¬ In t.token_id a.revoked_token_ids
    pub alive : now ≤ t.expires_at

  -- After any tokens are issued, revoked or refreshed on a new provider, a text that is accepted is
  -- the id, the agent, the role, the swarm and the expiry in milliseconds of the token that is
  -- returned, with colons between them, then a dot and the signature of all that with the swarm's
  -- secret; and the token's id is not revoked, and its expiry is not past.
  pub validate_token-Genuine :
      (secret : String) (cs : List Call) (now : ℕ) (text : String) (t : AuthToken)
      → validate_token hmac (run hmac (auth_provider secret) cs) now text ≡ some t
      → Genuine secret (run hmac (auth_provider secret) cs) now text t
  unfolding auth_provider
  validate_token-Genuine secret cs now text t h =
      let a = run hmac (auth_provider secret) cs in
      let all = run-AllSpelled secret (auth_provider secret) cs (refl, tt) in
      let accepted = validate_token_sound hmac a now text t h in
      record {
        spelled = All-lookup (Spelled secret) text t a.active_tokens all.1 accepted.stored;
        not_revoked = accepted.not_revoked;
        alive = accepted.alive;
      }
