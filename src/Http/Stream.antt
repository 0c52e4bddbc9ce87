-- ===== src/Http/Stream.antt =====
-- `handle_get`, `handle_delete` and the notifications.
use swarm_mcp.Prelude.{String, false, not, none, some, [], ◌∷◌, ◌==◌, if◌then◌else◌}
use Prim.Native.String.{◌++◌}
use swarm_mcp.Text.{codes, occurs}
use swarm_mcp.Mcp.Json.{RpcJson}
use swarm_mcp.Http.RateLimiter.{allow}
use swarm_mcp.Http.Sse.{SseStream, add_client, remove_client, broadcast_loop, sse_event}
use swarm_mcp.Http.Transport.{
  HttpRequest, HttpResponse, Reading, Transport, apply_cors, reply, too_many, authenticate,
}

module _ {J W : Type 0} where
  -- The response of a stream has no content of its own: a thread writes what is queued.
  unfoldable pub handle_get :
      (hmac : String → String → String)
      → Transport J W
      → Reading
      → HttpRequest
      → HttpResponse × Transport J W
  unfolding authenticate too_many apply_cors allow add_client
  handle_get hmac t now req =
      let res = apply_cors t.config in
      let (allowed, limiter) = allow t.limiter now.steady req.remote_addr in
      let t₁ = record t { limiter = limiter } in
      if not allowed
      then (too_many res, t₁)
      else elim (authenticate hmac t.config t.auth now.system req) [
        | none ↦ (reply res 401 "{\"error\":\"Authentication required for SSE stream\"}", t₁)
        | some token ↦
            if not (occurs (codes "text/event-stream") (codes req.accept))
            then (reply res 400 "{\"error\":\"Accept header must include text/event-stream\"}", t₁)
            else (
              res,
              record t₁ {
                sse = add_client t.sse now.uuid (record { queue = []; disconnected = false });
              },
            )
      ]

  -- It asks for no token.
  unfoldable pub handle_delete : Transport J W → HttpRequest → HttpResponse × Transport J W
  unfolding apply_cors remove_client
  handle_delete t req = (
    record (apply_cors t.config) { status = some 204 },
    if req.session_id == "" then t else record t { sse = remove_client t.sse req.session_id },
  )

module _ (json : RpcJson) where
  open json use {lib, dump}
  open lib use {Value, text, object}

  unfoldable pub broadcast : SseStream → String → Value → SseStream
  unfolding broadcast_loop sse_event
  broadcast sse method params = broadcast_loop sse (
      sse_event (
        dump (
          object (
            ("jsonrpc", text "2.0")
            ∷ ("method", text ("notifications/" ++ method))
            ∷ ("params", params)
            ∷ []))))

  unfoldable pub send_sse_notification :
      {W : Type 0} → Transport Value W → String → Value → Transport Value W
  unfolding broadcast
  send_sse_notification t method params = record t {
    sse = broadcast t.sse method params;
    world = elim t.notification_handler [ none ↦ t.world | some h ↦ h method params t.world ];
  }
