-- ===== src/Git/Plan.antt =====
-- What a merge asks git to do.
use swarm_mcp.Prelude.{◌≡◌, Bool, true, false, List, [], ◌∷◌, if◌then◌else◌, arith}
use swarm_mcp.Git.Commands.{Command, checkout, merge, merge_squash, rebase, add, commit, Git}
use swarm_mcp.Git.Merges.{
  MergeStrategy, merging, rebasing, squashing, MergeRequest, squash_message, perform_merge,
  by_strategy,
}

module _ (git : Git) where
  open git use {Repo, run}

  -- The commands in order, up to and including the first that fails.
  pub run_all : List Command → Repo → Bool × Repo
  run_all [] g = (true, g)
  run_all (c ∷ cs) g =
      let (ok, g') = run c g in let rest = run_all cs g' in if ok then rest else (false, g')

  pub merge_plan : MergeRequest → MergeStrategy → List Command
  merge_plan req merging = checkout req.target_branch false ∷ merge req.source_branch true ∷ []
  merge_plan req rebasing =
      checkout req.target_branch false
      ∷ checkout req.source_branch false
      ∷ rebase req.target_branch
      ∷ checkout req.target_branch false
      ∷ merge req.source_branch false
      ∷ []
  merge_plan req squashing =
      checkout req.target_branch false
      ∷ merge_squash req.source_branch
      ∷ add "."
      ∷ commit (squash_message git req) ""
      ∷ []

  perform_by_plan :
      (req : MergeRequest) (s : MergeStrategy) (g : Repo)
      → (let (out, g') = run (checkout req.target_branch false) g in
          if out then by_strategy git s req g' else (false, g'))
        ≡ run_all (merge_plan req s) g
  unfolding by_strategy run_all merge_plan
  perform_by_plan req merging g = ground arith
  perform_by_plan req rebasing g = ground arith
  perform_by_plan req squashing g = ground arith

  -- `perform_merge` runs the plan of its strategy: the target is checked out first, the commands
  -- come in this order, the first failure ends it, and it succeeds if all of them do.
  pub perform_merge-run_all :
      (req : MergeRequest) (g : Repo)
      → perform_merge git req g ≡ run_all (merge_plan req req.strategy) g
  unfolding perform_merge
  perform_merge-run_all req g = let h = perform_by_plan req req.strategy g in ground arith
