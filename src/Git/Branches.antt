-- ===== src/Git/Branches.antt =====
-- `BranchManager`. Each method holds `mutex_` while it works on the table, so a call is one step.
use Prim.Native.String.{◌++◌}
use swarm_mcp.Prelude.{
  ℕ, String, Bool, true, false, not, Option, none, some, List, [], ◌∷◌, Effect, ◌==◌, if◌then◌else◌,
  decides,
}
use swarm_mcp.Dict.{Dict, lookup, insert, select}
use swarm_mcp.Git.Commands.{checkout, add, commit, Git}

pub data BranchState : Type 0 where
  active merged abandoned locked : BranchState

pub BranchState-discrete : Discrete BranchState
BranchState-discrete = hlevel

pub record BranchInfo : Type 0 where
  pub name : String
  pub task_id : String
  pub agent_id : String
  pub state : BranchState
  pub base_branch : String
  pub created_at : ℕ

-- `listening`: a callback is registered.
pub record BranchManager : Type 0 where
  pub branch_prefix : String
  pub branches : Dict BranchInfo
  pub listening : Bool

abbrev pub Outcome : Type 0 → Type 0
Outcome A = Effect BranchManager A (String × BranchInfo)

unfoldable pub notify : BranchManager → String → BranchInfo → List (String × BranchInfo)
notify m event info = if m.listening then (event, info) ∷ [] else []

unfoldable pub refuse : {A : Type 0} → BranchManager → A → Outcome A
refuse m a = record { state = m; result = a; sent = [] }

unfoldable pub on_change : BranchManager → BranchManager
on_change m = record m { listening = true }

unfoldable pub make_branch_name : BranchManager → String → String
make_branch_name m task_id = m.branch_prefix ++ task_id

-- The four methods that set the state of a branch differ in the state and in the event.
unfoldable pub set_state : BranchManager → BranchState → String → String → Outcome Bool
unfolding notify refuse
set_state m state event branch = elim (lookup branch m.branches) [
  | none ↦ refuse m false
  | some info ↦
      let changed : BranchInfo = record info { state = state } in
      record {
        state = record m { branches = insert branch changed m.branches };
        result = true;
        sent = notify m event changed;
      }
]

unfoldable pub lock_branch : BranchManager → String → Outcome Bool
unfolding set_state
lock_branch m branch = set_state m locked "branch.locked" branch

unfoldable pub unlock_branch : BranchManager → String → Outcome Bool
unfolding set_state
unlock_branch m branch = set_state m active "branch.unlocked" branch

unfoldable pub mark_merged : BranchManager → String → Outcome Bool
unfolding set_state
mark_merged m branch = set_state m merged "branch.merged" branch

unfoldable pub mark_abandoned : BranchManager → String → Outcome Bool
unfolding set_state
mark_abandoned m branch = set_state m abandoned "branch.abandoned" branch

unfoldable pub get_branch_info : BranchManager → String → Option BranchInfo
get_branch_info m branch = lookup branch m.branches

unfoldable pub list_active : BranchManager → List BranchInfo
list_active m = select (λ b. decides (BranchState-discrete b.state active)) m.branches

unfoldable pub list_by_agent : BranchManager → String → List BranchInfo
list_by_agent m agent_id = select (λ b. b.agent_id == agent_id) m.branches

-- The first in the order of iteration.
unfoldable pub find_by_task : Dict BranchInfo → String → Option BranchInfo
find_by_task [] task_id = none
find_by_task ((k, b) ∷ m) task_id = if b.task_id == task_id then some b else find_by_task m task_id

module _ (git : Git) where
  open git use {Repo, run, is_repo, current_branch, diff}

  unfoldable pub base_of : Repo → String → String
  base_of g base =
      let base_branch = if base == "" then current_branch g else base in
      if base_branch == "" then "main" else base_branch

  unfoldable pub create_branch :
      BranchManager → Repo → (now : ℕ) → (task_id agent_id base : String) → Outcome String × Repo
  unfolding refuse notify base_of make_branch_name
  create_branch m g now task_id agent_id base =
      if not (is_repo g)
      then (refuse m "", g)
      else let branch_name = make_branch_name m task_id in
        let (ok, g') = run (checkout branch_name true) g in
        if not ok
        then (refuse m "", g')
        else let info : BranchInfo = record {
          name = branch_name;
          task_id = task_id;
          agent_id = agent_id;
          state = active;
          base_branch = base_of g base;
          created_at = now;
        } in
          (
            record {
              state = record m { branches = insert branch_name info m.branches };
              result = branch_name;
              sent = notify m "branch.created" info;
            },
            g',
          )

  unfoldable pub commit_changes : Repo → (branch message agent_id : String) → Bool × Repo
  commit_changes g branch message agent_id =
      let (out, g₁) = run (checkout branch false) g in
      if not out
      then (false, g₁)
      else let (staged, g₂) = run (add "-A") g₁ in
        if not staged then (false, g₂) else run (commit message agent_id) g₂

  unfoldable pub diff_to_base : BranchManager → Repo → String → String
  diff_to_base m g branch = elim (lookup branch m.branches) [
    | none ↦ ""
    | some info ↦ diff g info.base_branch branch
  ]
