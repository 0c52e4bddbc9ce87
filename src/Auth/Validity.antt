-- ===== src/Auth/Validity.antt =====
-- Which tokens `validate_token` accepts.
use Prim.Native.String.{◌++◌}
use swarm_mcp.Prelude.{
  ℕ, ◌+◌, ◌*◌, ◌≤◌, String, ◌≡◌, ◌∙◌, ap, subst, ◌^◌, ◌<◌, inl, inr, true, some, arith, In,
  In-of_contains, contains_of_In, Bool-cases, Option-cases,
}
use swarm_mcp.Dict.{lookup, lookup-insert}
use swarm_mcp.Auth.Role.{Role}
use swarm_mcp.Auth.Token.{
  AuthToken, is_expired, token_payload, token_text, split_last_dot, HasNoDot, split_last_dot-some,
  split_last_dot-token_text,
}
use swarm_mcp.Auth.Provider.{AuthProvider, verify_sig, issued, issue_token, validate_token}

module _ (hmac : String → String → String) where
  verify_sig-hmac :
      (payload secret : String) → verify_sig hmac payload (hmac payload secret) secret ≡ true
  unfolding verify_sig
  verify_sig-hmac payload secret = ground arith

  verify_sig-true :
      (payload signature secret : String)
      → verify_sig hmac payload signature secret ≡ true
      → signature ≡ hmac payload secret
  unfolding verify_sig
  verify_sig-true payload signature secret h = ground arith

  -- If the expiry, in nanoseconds, is below 2 ^ 63 and no signature has a dot in it, an issued token whose id is not revoked is accepted until its
  -- lifetime is over, and what is returned is the token itself.
  pub validate_token-issue_token :
      (a : AuthProvider) (uuid : String) (now later : ℕ) (agent_id : String) (role : Role)
      (swarm_id : String) (ttl : ℕ)
      → ((payload secret : String) → HasNoDot (hmac payload secret))
      → ¬ In uuid a.revoked_token_ids
      → now + ttl * 1000000000 < 2 ^ 63
      → later ≤ now + ttl * 1000000000
      → validate_token hmac
          (issue_token hmac a uuid now agent_id role swarm_id ttl).0
          later
          (issue_token hmac a uuid now agent_id role swarm_id ttl).1.token_string
        ≡ some (issue_token hmac a uuid now agent_id role swarm_id ttl).1
  unfolding validate_token issue_token issued is_expired
  validate_token-issue_token a uuid now later agent_id role swarm_id ttl hex fresh fits soon =
      let payload = token_payload uuid agent_id role swarm_id (now + ttl * 1000000000) in
      let signature = hmac payload a.swarm_secret in
      let token = issued hmac uuid now a.swarm_secret agent_id role swarm_id ttl in
      ground (
        arith,
        split_last_dot-token_text payload signature (hex payload a.swarm_secret),
        verify_sig-hmac payload a.swarm_secret,
        lookup-insert (token_text payload signature) (token_text payload signature) token
            a.active_tokens,
        In-of_contains a.revoked_token_ids uuid,
      )

  -- What is known of a token that is accepted.
  pub record Accepted (a : AuthProvider) (now : ℕ) (text : String) (t : AuthToken) : Type 0 where
    pub payload : String
    pub parted : text ≡ payload ++ ("." ++ hmac payload a.swarm_secret)
    pub no_later_dot : HasNoDot (hmac payload a.swarm_secret)
    pub stored : lookup text a.active_tokens ≡ some t
    pub not_revoked : ¬ In t.token_id a.revoked_token_ids
    pub alive : now ≤ t.expires_at

  -- A text that is accepted is a payload, a dot and the payload's signature with the swarm's
  -- secret, which has no dot in it; the token is stored under that text, not revoked, and not expired.
  pub validate_token_sound :
      (a : AuthProvider) (now : ℕ) (text : String) (t : AuthToken)
      → validate_token hmac a now text ≡ some t
      → Accepted a now text t
  unfolding validate_token is_expired
  validate_token_sound a now text t h = elim (Option-cases (split_last_dot text)) [
    | inl e ↦ absurd (ground arith)
    | inr ((payload, signature), e) ↦
        elim (Bool-cases (verify_sig hmac payload signature a.swarm_secret)) [
          | inl good ↦ record {
            payload = payload;
            parted =
                (split_last_dot-some text payload signature e).0
                ∙ ap (λ s. payload ++ ("." ++ s))
                    (verify_sig-true payload signature a.swarm_secret good);
            no_later_dot =
                subst HasNoDot (verify_sig-true payload signature a.swarm_secret good)
                  (split_last_dot-some text payload signature e).1;
            stored = ground arith;
            not_revoked = λ m. ground (arith, contains_of_In a.revoked_token_ids t.token_id m);
            alive = ground arith;
          }
          | inr bad ↦ absurd (ground arith)
        ]
  ]
