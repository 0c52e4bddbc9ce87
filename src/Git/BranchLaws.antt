-- ===== src/Git/BranchLaws.antt =====
-- The states a branch goes through.
use swarm_mcp.Prelude.{
  ℕ, String, ◌≡◌, ◌↔◌, true, some, arith, Option-cases, ite, String_discrete, inl, inr,
}
use swarm_mcp.Dict.{lookup, lookup-insert}
use swarm_mcp.Git.Commands.{Git, checkout}
use swarm_mcp.Git.Branches.{
  BranchState, BranchInfo, BranchManager, set_state, active, locked, lock_branch, unlock_branch,
  create_branch, base_of, make_branch_name,
}

-- What `set_state` answers, and what is found under any name after it.
pub set_state_lem :
    (m : BranchManager) (s : BranchState) (event branch k : String)
    → ((set_state m s event branch).result ≡ true
        ↔ (b : BranchInfo) × (lookup branch m.branches ≡ some b))
      × ((b : BranchInfo)
          → lookup k m.branches ≡ some b
          → lookup k (set_state m s event branch).state.branches
            ≡ some (ite (String_discrete branch k) (record b { state = s }) b))
unfolding set_state
set_state_lem m s event branch k = elim (Option-cases (lookup branch m.branches)) [
  | inl g ↦ ((λ h. absurd (ground arith), λ h. absurd (ground arith)), λ b e. ground arith)
  | inr (a, g) ↦ (
    (λ h. (a, g), λ h. ground arith),
    λ b e. ground (arith, lookup-insert branch k (record a { state = s }) m.branches),
  )
]

-- If a stored branch is locked and then unlocked, it is stored as active, whatever its state was
-- before.
pub unlock_branch-lock_branch :
    (m : BranchManager) (branch : String) (b : BranchInfo)
    → lookup branch m.branches ≡ some b
    → lookup branch (unlock_branch (lock_branch m branch).state branch).state.branches
      ≡ some (record b { state = active })
unfolding lock_branch unlock_branch
unlock_branch-lock_branch m branch b e =
    let first = (set_state_lem m locked "branch.locked" branch branch).1 b e in
    let then_ =
      (set_state_lem (lock_branch m branch).state active "branch.unlocked" branch branch).1 _
        first in
    ground arith

module _ (git : Git) where
  open git use {Repo, run, is_repo}

  abbrev pub new_branch :
      BranchManager → Repo → (now : ℕ) → (task_id agent_id base : String) → BranchInfo
  new_branch m g now task_id agent_id base = record {
    name = make_branch_name m task_id;
    task_id = task_id;
    agent_id = agent_id;
    state = active;
    base_branch = base_of git g base;
    created_at = now;
  }

  -- In a repository in which git makes the branch, `create_branch` returns the branch's name, under
  -- which the manager then finds an active branch with the task, the agent, the base branch and the
  -- time; under every other name it finds what it found before.
  pub create_branch_lem :
      (m : BranchManager) (g : Repo) (now : ℕ) (task_id agent_id base k : String)
      → is_repo g ≡ true
      → (run (checkout (make_branch_name m task_id) true) g).0 ≡ true
      → ((create_branch git m g now task_id agent_id base).0.result ≡ make_branch_name m task_id)
        × (lookup k (create_branch git m g now task_id agent_id base).0.state.branches
            ≡ ite
                (String_discrete (make_branch_name m task_id) k)
                (some (new_branch m g now task_id agent_id base))
                (lookup k m.branches))
  unfolding create_branch
  create_branch_lem m g now task_id agent_id base k h ok = (
    ground arith,
    ground (
      arith,
      lookup-insert (make_branch_name m task_id) k (new_branch m g now task_id agent_id base)
          m.branches,
    ),
  )

  -- `create_branch` leaves the same repository behind whatever base it is given.
  pub create_branch_base :
      (m : BranchManager) (g : Repo) (now : ℕ) (task_id agent_id base other : String)
      → (create_branch git m g now task_id agent_id base).1
        ≡ (create_branch git m g now task_id agent_id other).1
  unfolding create_branch
  create_branch_base m g now task_id agent_id base other = ground arith
