-- ===== src/Git/Examples.antt =====
-- The theorems on branches and merges at concrete inputs, and tests of the definitions.
use swarm_mcp.Prelude.{
  contains, ◌≡◌, refl, true, false, some, List, [], ◌∷◌, String_discrete, arith,
}
use swarm_mcp.Dict.{lookup, insert, select}
use swarm_mcp.Git.Commands.{Command, checkout, merge, Git}
use swarm_mcp.Git.Branches.{BranchInfo, BranchManager, active, merged, diff_to_base, list_active}
use swarm_mcp.Git.Merges.{
  MergeRequest, merging, squashing, MergeCoordinator, World, begin_merge, finish_merge,
  execute_merge, perform_merge, by_strategy, request_merge, auto_merge, auto_merge_completed_tasks,
}
use swarm_mcp.Git.Plan.{run_all, merge_plan, perform_merge-run_all}
use swarm_mcp.Git.Approval.{Merged, execute_merge-Merged}
use swarm_mcp.Git.Threads.{Threads, Call, begin, finish, step, run, Moves, run-Moves}

-- A git that does all it is asked and keeps a list of it, the last command first.
abbrev recorder : Git
recorder = record {
  Repo = List Command;
  run = λ c g. (true, c ∷ g);
  is_repo = λ g. true;
  current_branch = λ g. "dev";
  diff = λ g a b. "+ a line";
}

abbrev branch : BranchInfo
branch = record {
  name = "task/1";
  task_id = "1";
  agent_id = "ann";
  state = merged;
  base_branch = "main";
  created_at = 7;
}

abbrev manager : BranchManager
manager = record { branch_prefix = "task/"; branches = ("task/1", branch) ∷ []; listening = true }

abbrev proposal : MergeRequest
proposal = record {
  id = "u1";
  source_branch = "task/1";
  target_branch = "main";
  requester = "ann";
  strategy = merging;
  status = "approved";
  review = "bob";
  result = "";
}

abbrev table : MergeCoordinator
table = record { requests = ("u1", proposal) ∷ []; listening = false }

abbrev world : World recorder
world = record { coordinator = table; manager = manager; repo = [] }

-- The commands of a merge, the last first.
commands :
    perform_merge recorder proposal [] ≡ (true, merge "task/1" true ∷ checkout "main" false ∷ [])
unfolding perform_merge by_strategy
commands = refl

perform_merge-run_all_example :
    perform_merge recorder proposal [] ≡ run_all recorder (merge_plan recorder proposal merging) []
perform_merge-run_all_example = perform_merge-run_all recorder proposal []

-- Two threads execute the request, and one of them is done.
abbrev two_threads : List Call
two_threads = begin "u1" ∷ begin "u1" ∷ finish "u1" true ∷ []

abbrev completed : MergeRequest
completed = record proposal { status = "completed"; result = "merged successfully" }

abbrev after_first : Threads
after_first = run (record { coordinator = table; executing = [] }) two_threads

first_done : lookup "u1" after_first.coordinator.requests ≡ some completed
unfolding step begin_merge finish_merge lookup insert String_discrete contains
first_done = refl

run-Moves_example :
    (b : MergeRequest) × (lookup "u1" (step after_first (finish "u1" false)).coordinator.requests
      ≡ some b)
    × Moves completed b
run-Moves_example =
    run-Moves table two_threads (finish "u1" false) "u1" completed (tt, (tt, (tt, tt))) tt
      first_done

-- The second thread makes the completed request a failed one.
overwritten :
    lookup "u1" (step after_first (finish "u1" false)).coordinator.requests
    ≡ some (record proposal { status = "failed"; result = "merge conflict or error" })
unfolding step begin_merge finish_merge lookup insert String_discrete contains
overwritten = refl

-- Another thread asks for a merge while git works.
abbrev asks_meanwhile : World recorder → World recorder
asks_meanwhile v = record v {
  coordinator = (request_merge v.coordinator "u2" "task/2" "main" "bob" merging).state;
}

execute_merge-Merged_example :
    Merged recorder world "u1" asks_meanwhile
      (execute_merge recorder world "u1" asks_meanwhile).state
unfolding execute_merge begin_merge finish_merge perform_merge request_merge lookup insert
    String_discrete
execute_merge-Merged_example = execute_merge-Merged recorder world "u1" asks_meanwhile refl

-- One active branch that differs from its base.
abbrev busy : World recorder
busy = record world {
  manager = record manager { branches = ("task/1", record branch { state = active }) ∷ [] };
  coordinator = record { requests = []; listening = false };
}

abbrev proposed : MergeRequest
proposed = record proposal {
  requester = "auto-merger";
  strategy = squashing;
  status = "pending";
  review = "";
}

after_auto :
    lookup "u1" (auto_merge_completed_tasks recorder busy (λ b. "u1")).1.requests ≡ some proposed
unfolding auto_merge_completed_tasks auto_merge list_active diff_to_base request_merge lookup insert
    String_discrete select
after_auto = ground arith
