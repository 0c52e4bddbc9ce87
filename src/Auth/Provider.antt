-- ===== src/Auth/Provider.antt =====
-- `AuthProvider`. `hmac data secret` stands for `compute_hmac`, which asks OpenSSL; UUIDs and the
-- clock are arguments.
use Prim.Native.String.{len}
use swarm_mcp.Prelude.{
  ℕ, ◌+◌, ◌*◌, String, Bool, false, not, Option, none, some, List, [], ◌∷◌, contains, ◌==◌,
  if◌then◌else◌,
}
use swarm_mcp.Text.{◌=ᵇ◌}
use swarm_mcp.Dict.{Dict, lookup, insert}
use swarm_mcp.Auth.Role.{Role}
use swarm_mcp.Auth.Token.{AuthToken, is_expired, token_payload, token_text, split_last_dot}

-- The head of `revoked` is the id that was revoked last.
pub record AuthProvider : Type 0 where
  pub swarm_secret : String
  pub active_tokens : Dict AuthToken
  pub revoked_token_ids : List String

unfoldable pub auth_provider : String → AuthProvider
auth_provider secret = record { swarm_secret = secret; active_tokens = []; revoked_token_ids = [] }

-- The entries whose token has another id.
unfoldable pub erase_token : String → Dict AuthToken → Dict AuthToken
erase_token token_id [] = []
erase_token token_id ((k, t) ∷ m) =
    let rest = erase_token token_id m in if t.token_id == token_id then rest else (k, t) ∷ rest

unfoldable pub revoke_token : AuthProvider → String → AuthProvider
revoke_token a token_id = record a {
  active_tokens = erase_token token_id a.active_tokens;
  revoked_token_ids = token_id ∷ a.revoked_token_ids;
}

module _ (hmac : String → String → String) where
  -- CRYPTO_memcmp returns 0 for equal texts.
  unfoldable pub verify_sig : String → String → String → Bool
  verify_sig payload signature secret =
      let expected = hmac payload secret in
      if not (len expected =ᵇ len signature) then false else expected == signature

  -- `ttl` counts seconds, and is not negative. The source adds in `int64_t` nanoseconds, where a sum from
  -- 2 ^ 63 on is undefined; here it is the sum itself.
  unfoldable pub issued :
      (uuid : String) (now : ℕ)
      → String
      → (agent_id : String) → Role
      → (swarm_id : String) → (ttl : ℕ) → AuthToken
  issued uuid now secret agent_id role swarm_id ttl =
      let expires_at = now + ttl * 1000000000 in
      let payload = token_payload uuid agent_id role swarm_id expires_at in
      record {
        token_id = uuid;
        agent_id = agent_id;
        role = role;
        swarm_id = swarm_id;
        issued_at = now;
        expires_at = expires_at;
        token_string = token_text payload (hmac payload secret);
      }

  unfoldable pub issue_token :
      AuthProvider
      → (uuid : String) (now : ℕ) (agent_id : String) → Role
      → (swarm_id : String) → (ttl : ℕ) → AuthProvider × AuthToken
  issue_token a uuid now agent_id role swarm_id ttl =
      let token = issued uuid now a.swarm_secret agent_id role swarm_id ttl in
      (record a { active_tokens = insert token.token_string token a.active_tokens }, token)

  -- The tests on the stored token.
  unfoldable pub admit : AuthProvider → ℕ → AuthToken → Option AuthToken
  admit a now t =
      if contains a.revoked_token_ids t.token_id
      then none
      else if is_expired t now
      then none
      else some t

  unfoldable pub validate_token : AuthProvider → ℕ → String → Option AuthToken
  unfolding admit
  validate_token a now token_str = elim (split_last_dot token_str) [
    | none ↦ none
    | some (payload, signature) ↦
        if verify_sig payload signature a.swarm_secret
        then elim (lookup token_str a.active_tokens) [ none ↦ none | some t ↦ admit a now t ]
        else none
  ]

  unfoldable pub refresh_token :
      AuthProvider
      → (uuid : String) (now now' : ℕ) → String
      → (ttl : ℕ) → AuthProvider × Option AuthToken
  refresh_token a uuid now now' token_str ttl = elim (validate_token a now token_str) [
    | none ↦ (a, none)
    | some old ↦
        let (a', token) =
          issue_token (revoke_token a old.token_id) uuid now' old.agent_id old.role old.swarm_id
            ttl in
        (a', some token)
  ]
