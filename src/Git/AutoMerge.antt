-- ===== src/Git/AutoMerge.antt =====
-- What `auto_merge_completed_tasks` may do to the requests.
use swarm_mcp.Prelude.{
  String, ◌≡◌, ◌⊎◌, subst, refl, inl, inr, Bool, true, false, some, List, [], ◌∷◌, arith,
  Bool-cases, ◌==◌, String_discrete,
}
use std.Option.{some-injective}
use swarm_mcp.Dict.{lookup, lookup-insert}
use swarm_mcp.Git.Commands.{Git}
use swarm_mcp.Git.Branches.{BranchInfo, BranchManager, diff_to_base, list_active}
use swarm_mcp.Git.Merges.{
  MergeRequest, MergeCoordinator, request_merge, squashing, World, auto_merge,
  auto_merge_completed_tasks,
}

-- A squash that waits for approval.
abbrev pub IsProposal : MergeRequest → Type 0
IsProposal b = (b.status ≡ "pending") × (b.requester ≡ "auto-merger") × (b.strategy ≡ squashing)

module _ (git : Git) where
  open git use {Repo}

  request_merge-old :
      (c : MergeCoordinator) (u s t k : String) (b : MergeRequest)
      → lookup k (request_merge c u s t "auto-merger" squashing).state.requests ≡ some b
      → (lookup k c.requests ≡ some b) ⊎ IsProposal b
  unfolding request_merge
  request_merge-old c u s t k b e =
      let new : MergeRequest = record {
        id = u;
        source_branch = s;
        target_branch = t;
        requester = "auto-merger";
        strategy = squashing;
        status = "pending";
        review = "";
        result = "";
      } in
      elim (String_discrete u k) [
        | yes hit ↦ inr (
            subst IsProposal
              (some-injective {a = new} {b = b} (ground (arith, lookup-insert u k new c.requests)))
              (refl, refl, refl))
        | no miss ↦ inl (ground (arith, lookup-insert u k new c.requests))
      ]

  auto_merge-proposes :
      (m : BranchManager) (g : Repo) (fresh : String → String) (todo : List BranchInfo)
      (c : MergeCoordinator) (any : Bool) (k : String) (b : MergeRequest)
      → lookup k (auto_merge git m g fresh todo c any).1.requests ≡ some b
      → (lookup k c.requests ≡ some b) ⊎ IsProposal b
  unfolding auto_merge
  auto_merge-proposes m g fresh [] c any k b e = inl e
  auto_merge-proposes m g fresh (info ∷ rest) c any k b e =
      let c' =
        (request_merge c (fresh info.name) info.name info.base_branch "auto-merger"
          squashing).state in
      elim (Bool-cases (diff_to_base git m g info.name == "")) [
        | inl same ↦ auto_merge-proposes m g fresh rest c any k b (ground arith)
        | inr differs ↦ elim (auto_merge-proposes m g fresh rest c' true k b (ground arith)) [
          | inl old ↦ request_merge-old c (fresh info.name) info.name info.base_branch k b old
          | inr new ↦ inr new
        ]
      ]

  -- Whatever request is found after `auto_merge_completed_tasks` was there before as it is, or is a
  -- pending squash of the auto-merger's: it approves, rejects and executes nothing.
  pub auto_merge_completed_tasks-proposes :
      (w : World git) (fresh : String → String) (k : String) (b : MergeRequest)
      → lookup k (auto_merge_completed_tasks git w fresh).1.requests ≡ some b
      → (lookup k w.coordinator.requests ≡ some b) ⊎ IsProposal b
  unfolding auto_merge_completed_tasks
  auto_merge_completed_tasks-proposes w fresh k b e =
      auto_merge-proposes w.manager w.repo fresh (list_active w.manager) w.coordinator false k b e
