-- ===== src/Git/Approval.antt =====
-- What an execution of a merge request does, whatever other threads do meanwhile.
use swarm_mcp.Prelude.{
  String, ◌≡◌, ◌≢◌, ◌∙◌, ap, sym, subst, inl, inr, Bool, true, false, none, some, arith,
  Option-cases, if◌then◌else◌,
}
use swarm_mcp.Dict.{lookup, lookup-insert}
use swarm_mcp.Git.Commands.{Git}
use swarm_mcp.Git.Branches.{BranchInfo, BranchManager, merged, set_state, mark_merged}
use swarm_mcp.Git.Merges.{
  MergeRequest, MergeCoordinator, begin_merge, finish_merge, perform_merge, World, execute_merge,
}
use swarm_mcp.Git.Plan.{run_all, merge_plan, perform_merge-run_all}

-- What `finish_merge` writes.
lookup-finish_merge :
    (c : MergeCoordinator) (id : String) (r : MergeRequest) (ok : Bool)
    → lookup id c.requests ≡ some r
    → lookup id (finish_merge c id ok).state.requests
      ≡ some (record r {
        status = if ok then "completed" else "failed";
        result = if ok then "merged successfully" else "merge conflict or error";
      })
unfolding finish_merge
lookup-finish_merge c id r ok e = ground (
  arith,
  lookup-insert id id
      (record r {
        status = if ok then "completed" else "failed";
        result = if ok then "merged successfully" else "merge conflict or error";
      })
      c.requests,
)

pub begin_merge-lookup :
    (c : MergeCoordinator) (id : String) (r : MergeRequest)
    → begin_merge c id ≡ some r
    → lookup id c.requests ≡ some r
unfolding begin_merge
begin_merge-lookup c id r h = elim (Option-cases (lookup id c.requests)) [
  | inl g ↦ absurd (ground arith)
  | inr (q, g) ↦ ground arith
]

-- If `begin_merge` admits a request, a first `finish_merge` with success makes it completed, and a
-- second one with failure makes it failed, although nobody approved it again.
pub finish_merge_overwrites :
    (c : MergeCoordinator) (id : String) (r : MergeRequest)
    → begin_merge c id ≡ some r
    → (lookup id (finish_merge c id true).state.requests
        ≡ some (record r { status = "completed"; result = "merged successfully" }))
      × (lookup id (finish_merge (finish_merge c id true).state id false).state.requests
          ≡ some (record r { status = "failed"; result = "merge conflict or error" }))
finish_merge_overwrites c id r h =
    let first = lookup-finish_merge c id r true (begin_merge-lookup c id r h) in
    (first, lookup-finish_merge (finish_merge c id true).state id _ false first)

pub begin_merge-approved :
    (c : MergeCoordinator) (id : String) (r : MergeRequest)
    → begin_merge c id ≡ some r
    → r.status ≡ "approved"
unfolding begin_merge
begin_merge-approved c id r h = elim (Option-cases (lookup id c.requests)) [
  | inl g ↦ absurd (ground arith)
  | inr (q, g) ↦ ground arith
]

finish_merge-found :
    (c : MergeCoordinator) (id : String) (ok : Bool)
    → (finish_merge c id ok).result ≡ true
    → (ok ≡ true) × (r : MergeRequest) × (lookup id c.requests ≡ some r)
unfolding finish_merge
finish_merge-found c id ok h = elim (Option-cases (lookup id c.requests)) [
  | inl g ↦ absurd (ground arith)
  | inr (r, g) ↦ (ground arith, r, g)
]

-- What a branch manager has where one branch was merged: that branch, if it is known, is marked, and
-- the others are as they were.
pub record Marked (before after : BranchManager) (branch : String) : Type 0 where
  pub marked :
      (b : BranchInfo)
      → lookup branch before.branches ≡ some b
      → lookup branch after.branches ≡ some (record b { state = merged })
  pub unknown : lookup branch before.branches ≡ none → after ≡ before
  pub others : (k : String) → branch ≢ k → lookup k after.branches ≡ lookup k before.branches

mark_merged-Marked :
    (m : BranchManager) (branch : String) → Marked m (mark_merged m branch).state branch
unfolding mark_merged set_state
mark_merged-Marked m branch = record {
  marked =
      λ b e. ground (arith, lookup-insert branch branch (record b { state = merged }) m.branches);
  unknown = λ e. ground arith;
  others = λ k ne. elim (Option-cases (lookup branch m.branches)) [
    | inl e ↦ ground arith
    | inr (b, e) ↦ ground (arith, lookup-insert branch k (record b { state = merged }) m.branches)
  ];
}

module _ (git : Git) where
  -- What `execute_merge` has done when it answers true.
  pub record Merged (w : World git) (id : String) (between : World git → World git)
      (after : World git) : Type 0 where
    pub request : MergeRequest
    pub found : lookup id w.coordinator.requests ≡ some request
    pub was_approved : request.status ≡ "approved"
    pub all_succeeded : (run_all git (merge_plan git request request.strategy) w.repo).0 ≡ true
    pub met : World git
    pub met_then :
        met
        ≡ between
            (record w { repo = (run_all git (merge_plan git request request.strategy) w.repo).1 })
    pub branch_is_merged : Marked met.manager after.manager request.source_branch
    pub repo_is_met : after.repo ≡ met.repo
    pub stored : MergeRequest
    pub still_there : lookup id met.coordinator.requests ≡ some stored
    pub is_completed :
        lookup id after.coordinator.requests
        ≡ some (record stored { status = "completed"; result = "merged successfully" })

  -- If `execute_merge` answers true, the request was approved when it began, and git carried out every
  -- command of the plan of the request's strategy. Whatever other threads did before the lock was
  -- taken again, the request that is then stored under the id is completed, its source branch, if
  -- the manager knows it, is marked merged, and no other branch changes.
  pub execute_merge-Merged :
      (w : World git) (id : String) (between : World git → World git)
      → (execute_merge git w id between).result ≡ true
      → Merged w id between (execute_merge git w id between).state
  unfolding execute_merge
  execute_merge-Merged w id between h = elim (Option-cases (begin_merge w.coordinator id)) [
    | inl g ↦ absurd (ground arith)
    | inr (r, g) ↦
        let plan = perform_merge-run_all git r w.repo in
        let v = between (record w { repo = (perform_merge git r w.repo).1 }) in
        let ok = (perform_merge git r w.repo).0 in
        let done : (finish_merge v.coordinator id ok).result ≡ true = ground arith in
        let (good, stored, there) = finish_merge-found v.coordinator id ok done in
        record {
          request = r;
          found = begin_merge-lookup w.coordinator id r g;
          was_approved = begin_merge-approved w.coordinator id r g;
          all_succeeded = ap (λ x. x.0) (sym plan) ∙ good;
          met = v;
          met_then = ap (λ x. between (record w { repo = x.1 })) plan;
          branch_is_merged =
              subst (λ m. Marked v.manager m r.source_branch) (ground arith)
                (mark_merged-Marked v.manager r.source_branch);
          repo_is_met = ground arith;
          stored = stored;
          still_there = there;
          is_completed = ground (arith, lookup-finish_merge v.coordinator id stored ok there);
        }
  ]
