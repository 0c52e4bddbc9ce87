-- ===== src/Http/Transport.antt =====
-- `StreamableHttpTransport`: its state, requests and responses, and `authenticate`. The clocks, a
-- generated UUID and HMAC are arguments.
use swarm_mcp.Prelude.{
  ℕ, ◌+◌, ◌*◌, String, Bool, not, Option, none, some, [], ◌∷◌, ◌==◌, if◌then◌else◌,
}
use swarm_mcp.Dict.{Dict}
use swarm_mcp.Json.{◌>>=◌}
use swarm_mcp.Auth.Role.{coordinator}
use swarm_mcp.Auth.Token.{AuthToken, extract_bearer}
use swarm_mcp.Auth.Provider.{AuthProvider, validate_token}
use swarm_mcp.Mcp.Protocol.{McpProtocol}
use swarm_mcp.Http.RateLimiter.{RateLimiter}
use swarm_mcp.Http.Sse.{SseStream}

pub record StreamableHttpConfig : Type 0 where
  pub cors_origin : String
  pub require_auth : Bool

-- What the handlers read of httplib::Request; a header that is not there is empty.
pub record HttpRequest : Type 0 where
  pub remote_addr : String
  pub authorization : String
  pub accept : String
  pub session_id : String
  pub body : String

-- What they write of httplib::Response. The library sends 200 where no status is set.
pub record HttpResponse : Type 0 where
  pub status : Option ℕ
  pub headers : Dict String
  pub content : String

-- What the clocks and the UUID generator answer during a request.
pub record Reading : Type 0 where
  pub steady : ℕ
  pub system : ℕ
  pub uuid : String

unfoldable pub apply_cors : StreamableHttpConfig → HttpResponse
apply_cors config = record {
  status = none;
  headers =
      if config.cors_origin == ""
      then []
      else (("Access-Control-Allow-Origin", config.cors_origin)
          ∷ ("Access-Control-Allow-Methods", "GET, POST, DELETE, OPTIONS")
          ∷ ("Access-Control-Allow-Headers", "Content-Type, Authorization, Accept")
          ∷ []);
  content = "";
}

abbrev pub reply : HttpResponse → ℕ → String → HttpResponse
reply res status content = record res { status = some status; content = content }

-- What `authenticate` returns where no authentication is asked for; the clock is read at the first
-- call of a thread.
unfoldable pub anonymous : (now : ℕ) → AuthToken
anonymous now = record {
  token_id = "anonymous";
  agent_id = "anonymous";
  role = coordinator;
  swarm_id = "default";
  issued_at = now;
  expires_at = now + 87600 * 3600 * 1000000000;
  token_string = "";
}

unfoldable pub authenticate :
    (hmac : String → String → String)
    → StreamableHttpConfig
    → AuthProvider
    → (now : ℕ) → HttpRequest
    → Option AuthToken
unfolding anonymous
authenticate hmac config auth now req =
    if not config.require_auth
    then some (anonymous now)
    else if req.authorization == ""
    then none
    else extract_bearer req.authorization >>= λ bearer. validate_token hmac auth now bearer

unfoldable pub too_many : HttpResponse → HttpResponse
too_many res =
    reply res 429
      "{\"jsonrpc\":\"2.0\",\"error\":{\"code\":-32004,\"message\":\"Rate limit exceeded\"}}"

-- The state that requests work on. `world` is what the registered handlers work on, and `J` the
-- JSON values.
pub record Transport (J W : Type 0) : Type 0 where
  pub config : StreamableHttpConfig
  pub limiter : RateLimiter
  pub auth : AuthProvider
  pub protocol : McpProtocol J W
  pub world : W
  pub sse : SseStream
  pub notification_handler : Option (String → J → W → W)
