-- ===== src/Git/Commands.antt =====
-- What the branch and merge code uses of `GitOperations`, which runs the git program. A command
-- changes the repository and says whether it succeeded; nothing is assumed of it.
use swarm_mcp.Prelude.{String, Bool}

-- The defaults of the header are written out.
pub data Command : Type 0 where
  checkout : (branch : String) (create : Bool) → Command
  merge : (branch : String) (no_ff : Bool) → Command
  merge_squash rebase : (branch : String) → Command
  add : (pathspec : String) → Command
  commit : (message author : String) → Command

pub record Git : Type 1 where
  pub Repo : Type 0
  pub run : Command → Repo → Bool × Repo
  pub is_repo : Repo → Bool
  pub current_branch : Repo → String
  pub diff : Repo → String → String → String
