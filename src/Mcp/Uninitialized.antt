-- ===== src/Mcp/Uninitialized.antt =====
-- What a server that is not initialized answers.
use swarm_mcp.Prelude.{
  ℕ, String, ◌≡◌, ◌≢◌, refl, ap, ◌⊎◌, inl, inr, false, not, ◌==◌, ◌&&◌, both_branches,
  guarded_branches,
}
use swarm_mcp.Mcp.Json.{minus, returns, RpcJson}
use swarm_mcp.Mcp.Request.{McpRequest}
use swarm_mcp.Mcp.Protocol.{McpProtocol}
use swarm_mcp.Mcp.Serve.{
  Method, initialize, Served, method_of, has_id, by_method, dispatch, answer, refusal,
}
use swarm_mcp.Mcp.Replies.{error_json, IsIdOf, make_error_response_lem}

module _ (json : RpcJson) (W : Type 0) where
  open json use {lib}
  open lib use {Value}

  -- Nothing has changed, and the answer is an error with one of the two codes.
  abbrev pub IsRejected : McpProtocol Value W → McpRequest Value → W → Served json W → Type 0
  IsRejected p req w (answer, after) =
      (after ≡ (p, w))
      × (id : Value) × (code : ℕ) × (message : String) × IsIdOf json req id
      × (answer ≡ returns (error_json json id (minus code) message))
      × ((code ≡ 32600) ⊎ (code ≡ 32002))

  refusal-IsRejected :
      (p : McpProtocol Value W) (req : McpRequest Value) (w : W) (code : ℕ) (message : String)
      → (code ≡ 32600) ⊎ (code ≡ 32002)
      → IsRejected p req w (refusal json W req code message, (p, w))
  refusal-IsRejected p req w code message which =
      let (id, its, e) = make_error_response_lem json req (minus code) message in
      (refl, id, code, message, its, ap (λ r. returns r) e, which)

  by_method-IsRejected :
      (m : Method) (p : McpProtocol Value W) (req : McpRequest Value) (w : W)
      → p.initialized ≡ false
      → m ≢ initialize
      → IsRejected p req w (by_method json W m p req w)
  unfolding by_method
  by_method-IsRejected initialize p req w off ne = absurd (ne refl)
  by_method-IsRejected m p req w off ne =
      guarded_branches (IsRejected p req w) p.initialized _ _
        (refusal-IsRejected p req w 32002 "Server not initialized" (inr refl))
        (λ on. absurd (cc (on, off)))

  -- Where the server is not initialized, any other method than `initialize`, also `ping`, is answered
  -- with an error under the request's id (null where it has none), whose code is -32600 or -32002.
  -- Neither the protocol nor what the handlers work on changes.
  pub dispatch-uninitialized :
      (p : McpProtocol Value W) (req : McpRequest Value) (w : W)
      → p.initialized ≡ false
      → method_of req.method ≢ initialize
      → IsRejected p req w (dispatch json W p req w)
  unfolding dispatch
  dispatch-uninitialized p req w off ne =
      both_branches (IsRejected p req w) (not (req.jsonrpc == "2.0")) _ _
        (refusal-IsRejected p req w 32600 _ (inl refl))
        (both_branches (IsRejected p req w) (req.method == "" && has_id req) _ _
          (refusal-IsRejected p req w 32600 _ (inl refl))
          (by_method-IsRejected (method_of req.method) p req w off ne))
