-- ===== src/Auth/History.antt =====
-- Revocation is for good, and a refresh hands the same rights to a new token.
use swarm_mcp.Prelude.{
  ℕ, String, ◌≡◌, ◌≢◌, refl, subst, sym, inl, inr, some, List, [], ◌∷◌, arith, In, Option-cases,
}
use swarm_mcp.Auth.Role.{Role}
use swarm_mcp.Auth.Token.{AuthToken}
use swarm_mcp.Auth.Provider.{
  AuthProvider, revoke_token, issued, issue_token, validate_token, refresh_token,
}
use swarm_mcp.Auth.Validity.{validate_token_sound}

pub data Call : Type 0 where
  issue :
      (uuid : String) (now : ℕ) (agent_id : String) → Role → (swarm_id : String) (ttl : ℕ) → Call
  revoke : (token_id : String) → Call
  refresh : (uuid : String) (now now' : ℕ) (text : String) (ttl : ℕ) → Call

module _ (hmac : String → String → String) where
  unfoldable pub step : AuthProvider → Call → AuthProvider
  step a (issue uuid now agent_id role swarm_id ttl) =
      (issue_token hmac a uuid now agent_id role swarm_id ttl).0
  step a (revoke token_id) = revoke_token a token_id
  step a (refresh uuid now now' text ttl) = (refresh_token hmac a uuid now now' text ttl).0

  unfoldable pub run : AuthProvider → List Call → AuthProvider
  unfolding step
  run a [] = a
  run a (c ∷ cs) = run (step a c) cs

  step_keeps_revoked :
      (a : AuthProvider) (c : Call) (id : String)
      → In id a.revoked_token_ids
      → In id (step a c).revoked_token_ids
  unfolding step issue_token revoke_token refresh_token
  step_keeps_revoked a (issue uuid now agent_id role swarm_id ttl) id h = h
  step_keeps_revoked a (revoke token_id) id h = inr h
  step_keeps_revoked a (refresh uuid now now' text ttl) id h =
      elim (Option-cases (validate_token hmac a now text)) [
        | inl e ↦ ground arith
        | inr (t, e) ↦ ground arith
      ]

  run_keeps_revoked :
      (a : AuthProvider) (cs : List Call) (id : String)
      → In id a.revoked_token_ids
      → In id (run a cs).revoked_token_ids
  unfolding run
  run_keeps_revoked a [] id h = h
  run_keeps_revoked a (c ∷ cs) id h =
      run_keeps_revoked (step a c) cs id (step_keeps_revoked a c id h)

  -- After an id is revoked, and any tokens are issued, revoked or refreshed, no text that is
  -- accepted stands for a token with that id.
  pub revoke_token_final :
      (a : AuthProvider) (id : String) (cs : List Call) (now : ℕ) (text : String) (t : AuthToken)
      → validate_token hmac (run (revoke_token a id) cs) now text ≡ some t
      → t.token_id ≢ id
  unfolding revoke_token
  revoke_token_final a id cs now text t h e =
      let accepted = validate_token_sound hmac _ now text t h in
      accepted.not_revoked (
        subst (λ i. In i (run (revoke_token a id) cs).revoked_token_ids) (sym e)
          (run_keeps_revoked (revoke_token a id) cs id (inl refl)))

  -- A refresh succeeds for an accepted token only. The new token is for the same agent, role and
  -- swarm, and the old token's id is refused from then on.
  pub refresh_token_lem :
      (a : AuthProvider) (uuid : String) (now now' : ℕ) (text : String) (ttl : ℕ) (new : AuthToken)
      → (refresh_token hmac a uuid now now' text ttl).1 ≡ some new
      → (old : AuthToken) × (validate_token hmac a now text ≡ some old)
        × (new.agent_id ≡ old.agent_id)
        × (new.role ≡ old.role)
        × (new.swarm_id ≡ old.swarm_id)
        × (new.token_id ≡ uuid)
        × ((cs : List Call) (later : ℕ) (any : String) (t : AuthToken)
            → validate_token hmac (run (refresh_token hmac a uuid now now' text ttl).0 cs) later any
              ≡ some t
            → t.token_id ≢ old.token_id)
  unfolding refresh_token issue_token issued revoke_token
  refresh_token_lem a uuid now now' text ttl new h =
      elim (Option-cases (validate_token hmac a now text)) [
        | inl e ↦ absurd (ground arith)
        | inr (old, e) ↦ (
          old,
          e,
          ground arith,
          ground arith,
          ground arith,
          ground arith,
          λ cs later any t ok same.
              let b = (refresh_token hmac a uuid now now' text ttl).0 in
              let there : In old.token_id b.revoked_token_ids = ground arith in
              (validate_token_sound hmac (run b cs) later any t ok).not_revoked (
                subst (λ i. In i (run b cs).revoked_token_ids) (sym same)
                  (run_keeps_revoked b cs old.token_id there)),
        )
      ]
