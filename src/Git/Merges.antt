-- ===== src/Git/Merges.antt =====
-- `MergeCoordinator`. `execute_merge` lets go of `mutex_` while git works, so it is two steps of
-- the table, `begin_merge` and `finish_merge`, with `perform_merge` between them.
use Prim.Native.String.{◌++◌}
use swarm_mcp.Prelude.{
  String, Bool, true, false, not, ◌||◌, Option, none, some, List, [], ◌∷◌, ◌++◌ as ◌⧺◌, map, Effect,
  ◌==◌, if◌then◌else◌,
}
use swarm_mcp.Dict.{Dict, lookup, insert, select}
use swarm_mcp.Git.Commands.{checkout, merge, merge_squash, rebase, add, commit, Git}
use swarm_mcp.Git.Branches.{BranchManager, BranchInfo, mark_merged, list_active, diff_to_base}

pub data MergeStrategy : Type 0 where
  merging rebasing squashing : MergeStrategy

pub record MergeRequest : Type 0 where
  pub id : String
  pub source_branch : String
  pub target_branch : String
  pub requester : String
  pub strategy : MergeStrategy
  pub status : String
  pub review : String
  pub result : String

pub record MergeCoordinator : Type 0 where
  pub requests : Dict MergeRequest
  pub listening : Bool

abbrev pub Outcome : Type 0 → Type 0
Outcome A = Effect MergeCoordinator A (String × MergeRequest)

unfoldable pub notify : MergeCoordinator → String → MergeRequest → List (String × MergeRequest)
notify c event req = if c.listening then (event, req) ∷ [] else []

unfoldable pub refuse : {A : Type 0} → MergeCoordinator → A → Outcome A
refuse c a = record { state = c; result = a; sent = [] }

unfoldable pub store :
    {A : Type 0} → MergeCoordinator → String → MergeRequest → String → A → Outcome A
unfolding notify
store c id req event a = record {
  state = record c { requests = insert id req c.requests };
  result = a;
  sent = notify c event req;
}

unfoldable pub on_change : MergeCoordinator → MergeCoordinator
on_change c = record c { listening = true }

unfoldable pub request_merge :
    MergeCoordinator → (uuid source target requester : String) → MergeStrategy → Outcome String
unfolding store
request_merge c uuid source target requester strategy =
    store c uuid
      (record {
        id = uuid;
        source_branch = source;
        target_branch = target;
        requester = requester;
        strategy = strategy;
        status = "pending";
        review = "";
        result = "";
      })
      "merge.requested" uuid

unfoldable pub approve_merge : MergeCoordinator → (merge_id reviewer : String) → Outcome Bool
unfolding store refuse
approve_merge c merge_id reviewer = elim (lookup merge_id c.requests) [
  | none ↦ refuse c false
  | some req ↦
      if not (req.status == "pending")
      then refuse c false
      else store c merge_id (record req { status = "approved"; review = reviewer }) "merge.approved"
          true
]

unfoldable pub reject_merge : MergeCoordinator → (merge_id reviewer reason : String) → Outcome Bool
unfolding store refuse
reject_merge c merge_id reviewer reason = elim (lookup merge_id c.requests) [
  | none ↦ refuse c false
  | some req ↦
      if not (req.status == "pending")
      then refuse c false
      else store c merge_id (record req { status = "rejected"; review = reviewer; result = reason })
          "merge.rejected" true
]

-- The first part of `execute_merge`: the request to merge, if there is an approved one.
unfoldable pub begin_merge : MergeCoordinator → String → Option MergeRequest
begin_merge c merge_id = elim (lookup merge_id c.requests) [
  | none ↦ none
  | some req ↦ if not (req.status == "approved") then none else some req
]

-- The last part of `execute_merge`, on the table. The status is not read again.
unfoldable pub finish_merge : MergeCoordinator → String → Bool → Outcome Bool
unfolding store refuse
finish_merge c merge_id ok = elim (lookup merge_id c.requests) [
  | none ↦ refuse c false
  | some req ↦
      store c merge_id
        (record req {
          status = if ok then "completed" else "failed";
          result = if ok then "merged successfully" else "merge conflict or error";
        })
        (if ok then "merge.completed" else "merge.failed") ok
]

unfoldable pub get_request : MergeCoordinator → String → Option MergeRequest
get_request c id = lookup id c.requests

unfoldable pub pending_requests : MergeCoordinator → List MergeRequest
pending_requests c = select (λ r. r.status == "pending") c.requests

unfoldable pub list_by_branch : MergeCoordinator → String → List MergeRequest
list_by_branch c branch =
    select (λ r. r.source_branch == branch || r.target_branch == branch) c.requests

unfoldable pub list_by_requester : MergeCoordinator → String → List MergeRequest
list_by_requester c requester = select (λ r. r.requester == requester) c.requests

-- A call of the branch manager's callback, or of the coordinator's.
pub data Told : Type 0 where
  of_branch : String × BranchInfo → Told
  of_merge : String × MergeRequest → Told

module _ (git : Git) where
  open git use {Repo, run}

  -- std::format("squash: merge {} into {}", source, target)
  abbrev pub squash_message : MergeRequest → String
  squash_message req = "squash: merge " ++ (req.source_branch ++ (" into " ++ req.target_branch))

  unfoldable pub by_rebase : MergeRequest → Repo → Bool × Repo
  by_rebase req g =
      let (there, g₁) = run (checkout req.source_branch false) g in
      if not there
      then (false, g₁)
      else let (moved, g₂) = run (rebase req.target_branch) g₁ in
        if not moved
        then (false, g₂)
        else let (back, g₃) = run (checkout req.target_branch false) g₂ in
          if not back then (false, g₃) else run (merge req.source_branch false) g₃

  unfoldable pub by_squash : MergeRequest → Repo → Bool × Repo
  by_squash req g =
      let (squashed, g₁) = run (merge_squash req.source_branch) g in
      if not squashed
      then (false, g₁)
      else let (staged, g₂) = run (add ".") g₁ in
        if not staged then (false, g₂) else run (commit (squash_message req) "") g₂

  unfoldable pub by_strategy : MergeStrategy → MergeRequest → Repo → Bool × Repo
  unfolding by_rebase by_squash
  by_strategy merging req g = run (merge req.source_branch true) g
  by_strategy rebasing req g = by_rebase req g
  by_strategy squashing req g = by_squash req g

  unfoldable pub perform_merge : MergeRequest → Repo → Bool × Repo
  unfolding by_strategy
  perform_merge req g =
      let (out, g') = run (checkout req.target_branch false) g in
      if not out then (false, g') else by_strategy req.strategy req g'

  -- What `execute_merge` works on, and what it leaves behind.
  pub record World : Type 0 where
    pub coordinator : MergeCoordinator
    pub manager : BranchManager
    pub repo : Repo

  -- `between` is what other threads do after git has worked and before the lock is taken again: they
  -- may change the requests, the branches and the repository.
  unfoldable pub execute_merge : World → String → (between : World → World) → Effect World Bool Told
  unfolding begin_merge finish_merge perform_merge mark_merged
  execute_merge w merge_id between = elim (begin_merge w.coordinator merge_id) [
    | none ↦ record { state = w; result = false; sent = [] }
    | some req ↦
        let (ok, g) = perform_merge req w.repo in
        let v = between (record w { repo = g }) in
        let done = finish_merge v.coordinator merge_id ok in
        let marked = mark_merged v.manager req.source_branch in
        record {
          state = record {
            coordinator = done.state;
            manager = if done.result then marked.state else v.manager;
            repo = v.repo;
          };
          result = done.result;
          sent = (if done.result then map of_branch marked.sent else []) ⧺ map of_merge done.sent;
        }
  ]

  -- The loop of `auto_merge_completed_tasks`, where no other thread acts meanwhile; `fresh`
  -- gives the UUID of the request for a branch.
  unfoldable pub auto_merge :
      BranchManager
      → Repo
      → (fresh : String → String) → List BranchInfo
      → MergeCoordinator
      → Bool
      → Bool × MergeCoordinator
  unfolding diff_to_base request_merge
  auto_merge m g fresh [] c any = (any, c)
  auto_merge m g fresh (info ∷ rest) c any =
      let skip = auto_merge m g fresh rest c any in
      let c' =
        (request_merge c (fresh info.name) info.name info.base_branch "auto-merger"
          squashing).state in
      let more = auto_merge m g fresh rest c' true in
      if diff_to_base git m g info.name == "" then skip else more

  unfoldable pub auto_merge_completed_tasks :
      World → (fresh : String → String) → Bool × MergeCoordinator
  unfolding auto_merge list_active
  auto_merge_completed_tasks w fresh =
      auto_merge w.manager w.repo fresh (list_active w.manager) w.coordinator false
