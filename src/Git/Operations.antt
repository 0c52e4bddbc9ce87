-- ===== src/Git/Operations.antt =====
-- `GitOperations`. How a process is run (`exec`) and what the file system says of a path are
-- parameters; a command that only reads is taken to leave the repository as it is.
use Prim.Native.String.{◌++◌}
use swarm_mcp.Prelude.{
  suc, String, Bool, false, not, ◌&&◌, List, [], ◌∷◌, ◌++◌ as ◌⧺◌, ◌==◌, if◌then◌else◌,
}
use swarm_mcp.Int.{ℤ, pos, negsuc}
use swarm_mcp.Auth.Token.{decimal}
use swarm_mcp.Git.Commands.{Command, checkout, merge, merge_squash, rebase, add, commit, Git}
use swarm_mcp.Git.Tokens.{tokenize_args}
use swarm_mcp.Git.Output.{trim_back, ends_line, getlines, log_lines, branch_names}

pub record GitResult : Type 0 where
  pub success : Bool
  pub exit_code : ℤ
  pub stdout_out : String
  pub stderr_out : String

-- What runs git, and std::filesystem::weakly_canonical.
pub record Program : Type 1 where
  pub Repo : Type 0
  pub exec : List String → Repo → GitResult × Repo
  pub weakly_canonical : String → String

unfoldable pub commit_argv : (message author : String) → List String
commit_argv message author =
    let argv = "commit" ∷ "-m" ∷ message ∷ [] in
    if author == "" then argv else argv ⧺ "--author" ∷ (author ++ (" <" ++ (author ++ ">"))) ∷ []

-- The arguments of the commands that change the repository.
unfoldable pub argv_of : Command → List String
unfolding commit_argv
argv_of (checkout branch create) =
    if create then "checkout" ∷ "-b" ∷ branch ∷ [] else "checkout" ∷ branch ∷ []
argv_of (merge branch no_ff) =
    if no_ff then "merge" ∷ "--no-ff" ∷ branch ∷ [] else "merge" ∷ branch ∷ []
argv_of (merge_squash branch) = "merge" ∷ "--squash" ∷ branch ∷ []
argv_of (rebase branch) = "rebase" ∷ branch ∷ []
argv_of (add pathspec) = "add" ∷ pathspec ∷ []
argv_of (commit message author) = commit_argv message author

unfoldable pub diff_argv : (from_ref to_ref : String) → List String
diff_argv from_ref to_ref =
    let argv = "diff" ∷ [] in
    if not (from_ref == "") && not (to_ref == "")
    then argv ⧺ (from_ref ++ ("..." ++ to_ref)) ∷ []
    else if not (from_ref == "")
    then argv ⧺ from_ref ∷ []
    else argv

-- std::to_string
unfoldable pub to_string : ℤ → String
to_string (pos n) = decimal n
to_string (negsuc n) = "-" ++ decimal (suc n)

unfoldable pub log_argv : (count : ℤ) → (format : String) → List String
unfolding to_string
log_argv count format =
    "log"
    ∷ (if format == "" then "--oneline" else "--format=" ++ format)
    ∷ ("-" ++ to_string count)
    ∷ []

unfoldable pub branches_argv : (remote : Bool) → List String
branches_argv remote = let argv = "branch" ∷ [] in if remote then argv ⧺ "-r" ∷ [] else argv

module _ (program : Program) where
  open program use {Repo, exec, weakly_canonical}

  abbrev pub succeeds : List String → Repo → Bool × Repo
  succeeds argv g = let (r, g') = exec argv g in (r.success, g')

  -- What a command prints, or the default if it fails.
  abbrev pub prints : List String → Repo → (of_output : String → String) → String
  prints argv g of_output =
      let r = (exec argv g).0 in if r.success then of_output r.stdout_out else ""

  abbrev pub lines_of : List String → Repo → (List String → List String) → List String
  lines_of argv g of_lines =
      let r = (exec argv g).0 in if r.success then of_lines (getlines r.stdout_out "") else []

  unfoldable pub exec_str : (args : String) → Repo → GitResult × Repo
  unfolding tokenize_args
  exec_str args g = exec (tokenize_args args) g

  unfoldable pub is_repo : (repo_path : String) → Repo → Bool
  unfolding trim_back
  is_repo repo_path g =
      let r = (exec ("rev-parse" ∷ "--show-toplevel" ∷ []) g).0 in
      if not r.success
      then false
      else weakly_canonical (trim_back ends_line r.stdout_out) == weakly_canonical repo_path

  unfoldable pub current_branch : Repo → String
  unfolding trim_back
  current_branch g =
      prints ("rev-parse" ∷ "--abbrev-ref" ∷ "HEAD" ∷ []) g (λ out. trim_back ends_line out)

  unfoldable pub current_commit : Repo → String
  unfolding trim_back
  current_commit g = prints ("rev-parse" ∷ "HEAD" ∷ []) g (λ out. trim_back ends_line out)

  unfoldable pub has_changes : Repo → Bool
  has_changes g =
      let r = (exec ("status" ∷ "--porcelain" ∷ []) g).0 in r.success && not (r.stdout_out == "")

  unfoldable pub init : Repo → Bool × Repo
  init g = succeeds ("init" ∷ "--initial-branch=main" ∷ []) g

  unfoldable pub fetch : Repo → Bool × Repo
  fetch g = succeeds ("fetch" ∷ "--all" ∷ []) g

  unfoldable pub pull : Repo → Bool × Repo
  pull g = succeeds ("pull" ∷ "--rebase" ∷ []) g

  unfoldable pub push : Repo → Bool × Repo
  push g = succeeds ("push" ∷ []) g

  unfoldable pub branch_delete : (branch : String) → (force : Bool) → Repo → Bool × Repo
  branch_delete branch force g =
      succeeds ("branch" ∷ (if force then "-D" else "-d") ∷ branch ∷ []) g

  unfoldable pub stash : Repo → Bool × Repo
  stash g = succeeds ("stash" ∷ []) g

  unfoldable pub stash_pop : Repo → Bool × Repo
  stash_pop g = succeeds ("stash" ∷ "pop" ∷ []) g

  unfoldable pub reset : (ref : String) → (hard : Bool) → Repo → Bool × Repo
  reset ref hard g = succeeds ("reset" ∷ (if hard then "--hard" else "--soft") ∷ ref ∷ []) g

  unfoldable pub cherry_pick : (commit_hash : String) → Repo → Bool × Repo
  cherry_pick commit_hash g = succeeds ("cherry-pick" ∷ commit_hash ∷ []) g

  unfoldable pub log : (count : ℤ) → (format : String) → Repo → List String
  unfolding log_argv log_lines getlines
  log count format g = lines_of (log_argv count format) g log_lines

  unfoldable pub branches : (remote : Bool) → Repo → List String
  unfolding branches_argv branch_names getlines
  branches remote g = lines_of (branches_argv remote) g branch_names

  unfoldable pub diff : Repo → (from_ref to_ref : String) → String
  unfolding diff_argv
  diff g from_ref to_ref = prints (diff_argv from_ref to_ref) g (λ out. out)

  unfoldable pub show : (ref : String) → Repo → String
  show ref g = prints ("show" ∷ ref ∷ []) g (λ out. out)

  -- What the branch and merge code uses of it.
  unfoldable pub git_operations : (repo_path : String) → Git
  unfolding argv_of is_repo current_branch diff
  git_operations repo_path = record {
    Repo = Repo;
    run = λ command g. succeeds (argv_of command) g;
    is_repo = is_repo repo_path;
    current_branch = current_branch;
    diff = diff;
  }
