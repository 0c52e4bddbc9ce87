-- ===== src/Auth/Examples.antt =====
-- The theorems on tokens and roles at concrete inputs, and tests of the definitions.
use swarm_mcp.Prelude.{
  ℕ, ◌≡◌, ◌≢◌, refl, inl, inr, some, String, List, [], ◌∷◌, arith, contains, String_discrete,
  text_ne,
}
use swarm_mcp.Dict.{lookup, insert}
use swarm_mcp.Auth.Role.{worker, role_to_str}
use swarm_mcp.Auth.Token.{
  AuthToken, token_payload, token_text, split_last_dot, extract_bearer, is_expired,
}
use swarm_mcp.Auth.Provider.{
  AuthProvider, auth_provider, revoke_token, verify_sig, issued, issue_token, validate_token,
  refresh_token, erase_token,
}
use swarm_mcp.Auth.Validity.{validate_token-issue_token}
use swarm_mcp.Auth.Genuine.{Genuine, validate_token-Genuine}
use swarm_mcp.Auth.History.{Call, issue, run, revoke_token_final, refresh_token_lem}

-- A stand-in for HMAC-SHA256, with hexadecimal digits only.
abbrev toy_hmac : String → String → String
toy_hmac payload secret = "ab12"

abbrev start : AuthProvider
start = record { swarm_secret = "s3cret"; active_tokens = []; revoked_token_ids = "u0" ∷ [] }

abbrev token : AuthToken
token = record {
  token_id = "u1";
  agent_id = "ann";
  role = worker;
  swarm_id = "s";
  issued_at = 0;
  expires_at = 60000000000;
  token_string = "u1:ann:worker:s:60000.ab12";
}

abbrev holding : AuthProvider
holding = record start { active_tokens = ("u1:ann:worker:s:60000.ab12", token) ∷ [] }

issued_text : (issue_token toy_hmac start "u1" 0 "ann" worker "s" 60) ≡ (holding, token)
unfolding issue_token issued token_payload token_text role_to_str insert String_discrete
issued_text = refl

accepted : validate_token toy_hmac holding 5 "u1:ann:worker:s:60000.ab12" ≡ some token
unfolding validate_token split_last_dot verify_sig lookup contains is_expired String_discrete
accepted = refl

validate_token-issue_token_example :
    validate_token toy_hmac
      (issue_token toy_hmac start "u1" 0 "ann" worker "s" 60).0
      5
      (issue_token toy_hmac start "u1" 0 "ann" worker "s" 60).1.token_string
    ≡ some (issue_token toy_hmac start "u1" 0 "ann" worker "s" 60).1
unfolding String_discrete
validate_token-issue_token_example =
    validate_token-issue_token toy_hmac start "u1" 0 5 "ann" worker "s" 60 (λ p s. omega arith)
      (λ h. elim h [ inl e ↦ text_ne "u1" "u0" refl e | inr n ↦ n ]) (omega arith) (omega arith)

abbrev later_calls : List Call
later_calls = issue "u1" 0 "ann" worker "s" 60 ∷ []

accepted_later :
    validate_token toy_hmac
      (run toy_hmac (revoke_token start "u2") later_calls)
      5
      "u1:ann:worker:s:60000.ab12"
    ≡ some token
unfolding run revoke_token erase_token issue_token issued token_payload token_text role_to_str
    insert validate_token split_last_dot verify_sig lookup contains is_expired String_discrete
accepted_later = refl

accepted_new :
    validate_token toy_hmac
      (run toy_hmac (auth_provider "s3cret") later_calls)
      5
      "u1:ann:worker:s:60000.ab12"
    ≡ some token
unfolding run revoke_token erase_token issue_token issued token_payload token_text role_to_str
    insert validate_token split_last_dot verify_sig lookup contains is_expired String_discrete
    auth_provider
accepted_new = refl

validate_token-Genuine_example :
    Genuine toy_hmac "s3cret"
      (run toy_hmac (auth_provider "s3cret") later_calls)
      5
      "u1:ann:worker:s:60000.ab12"
      token
validate_token-Genuine_example =
    validate_token-Genuine toy_hmac "s3cret" later_calls 5 "u1:ann:worker:s:60000.ab12" token
      accepted_new

revoke_token_final_example : ◌≢◌ {A = String} "u1" "u2"
revoke_token_final_example =
    revoke_token_final toy_hmac start "u2" later_calls 5 "u1:ann:worker:s:60000.ab12" token
      accepted_later

abbrev renewed : AuthToken
renewed = record token {
  token_id = "u3";
  expires_at = 60000000009;
  issued_at = 9;
  token_string = "u3:ann:worker:s:60000.ab12";
}

refreshed :
    (refresh_token toy_hmac holding "u3" 5 9 "u1:ann:worker:s:60000.ab12" 60).1 ≡ some renewed
unfolding refresh_token revoke_token erase_token issue_token issued token_payload token_text
    role_to_str insert validate_token split_last_dot verify_sig lookup contains is_expired
    String_discrete
refreshed = refl

refresh_token_lem_example :
    (old : AuthToken) × (validate_token toy_hmac holding 5 "u1:ann:worker:s:60000.ab12" ≡ some old)
    × (renewed.agent_id ≡ old.agent_id)
    × (renewed.role ≡ old.role)
    × (renewed.swarm_id ≡ old.swarm_id)
    × (renewed.token_id ≡ "u3")
    × ((cs : List Call) (later : ℕ) (any : String) (t : AuthToken)
        → validate_token toy_hmac
            (run toy_hmac
              (refresh_token toy_hmac holding "u3" 5 9 "u1:ann:worker:s:60000.ab12" 60).0
              cs)
            later
            any
          ≡ some t
        → t.token_id ≢ old.token_id)
refresh_token_lem_example =
    refresh_token_lem toy_hmac holding "u3" 5 9 "u1:ann:worker:s:60000.ab12" 60 renewed refreshed

bearer : extract_bearer "Bearer abc \r" ≡ some "abc"
unfolding extract_bearer
bearer = refl
