-- ===== src/Git/Reading.antt =====
-- `branches`, from what git prints to what is returned.
use swarm_mcp.Prelude.{String, ◌≡◌, Bool, true, List, map, arith}
use swarm_mcp.Git.Output.{printed, AreNames, branch_names-printed}
use swarm_mcp.Git.Operations.{Program, branches_argv, branches}

module _ (program : Program) where
  open program use {Repo, exec}

  -- If git succeeds and prints the branches, one on a line and the current one marked, then `branches`
  -- returns their names, in order.
  pub branches-printed :
      (remote : Bool) (g : Repo) (bs : List (Bool × String))
      → AreNames bs
      → (exec (branches_argv remote) g).0.success ≡ true
      → (exec (branches_argv remote) g).0.stdout_out ≡ printed bs
      → branches program remote g ≡ map (λ b. b.1) bs
  unfolding branches
  branches-printed remote g bs names ok out = ground (arith, branch_names-printed bs names)
