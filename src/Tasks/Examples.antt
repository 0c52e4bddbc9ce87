-- ===== src/Tasks/Examples.antt =====
-- The theorems on tasks at concrete inputs, and tests of the definitions.
use swarm_mcp.Prelude.{
  ℕ, suc, ◌≡◌, refl, subst, ◌↔◌, inl, inr, Bool, true, false, none, some, String, List, [], ◌∷◌,
  arith, In, contains, String_discrete, text_ne,
}
use swarm_mcp.Dict.{lookup, insert}
use swarm_mcp.Json.Values.{json_values, Value}
use swarm_mcp.Json.Values
use swarm_mcp.Tasks.Task.{Task, pending, completed, medium}
use swarm_mcp.Tasks.Search.{search, push_all, deps_of, would_create_cycle, total_deps}
use swarm_mcp.Tasks.Search.Graph.{Reach, IsAcyclic}
use swarm_mcp.Tasks.Search.Decides.{search_total, would_create_cycle_iff, would_create_cycle-false}
use swarm_mcp.Tasks.Acyclic.{add_dependency-IsAcyclic}
use swarm_mcp.Tasks.Manager.{TaskManager, empty, delete_task, add_dependency, restore_task}
use swarm_mcp.Tasks.History.{
  Call, create, depend, change_status, delete, listen, run, run-empty-Inv, Inv, IsSound,
}
use swarm_mcp.Tasks.Queries.{get_ready_tasks}
use swarm_mcp.Tasks.Ready.{Done, get_ready_tasks_iff}
use swarm_mcp.Tasks.Effects.{Admissible}
use swarm_mcp.Tasks.Stores.{AnyCall, restore, update, run_any, run_any-empty-Inv}
use swarm_mcp.Tasks.Frame.{sent_by}
use swarm_mcp.Tasks.Codec.{task_to_json, task_from_json, in_millis, task_from_json-task_to_json}

abbrev task : String → List String → Task ℕ
task id deps = record {
  id = id;
  title = "Title";
  description = "";
  assignee = "";
  creator = "ann";
  status = pending;
  priority = medium;
  dependencies = deps;
  tags = [];
  context = 0;
  created_at = 5;
  updated_at = 6;
  deadline = none;
  completed_at = none;
}

-- Task "a" depends on "b", and "b" on "c".
abbrev chain : TaskManager ℕ
chain = record {
  tasks = ("a", task "a" ("b" ∷ [])) ∷ ("b", task "b" ("c" ∷ [])) ∷ ("c", task "c" []) ∷ [];
  listening = true;
}

abbrev calls : List (Call ℕ)
calls =
    listen true
    ∷ create 0 "a" 1 2 "A" "ann" "" medium
    ∷ create 0 "b" 3 4 "B" "ann" "" medium
    ∷ depend 5 "a" "b"
    ∷ depend 6 "b" "a"
    ∷ change_status 7 8 "b" completed
    ∷ []

cycle_found : would_create_cycle chain.tasks "c" "a" ≡ true
unfolding would_create_cycle search push_all total_deps deps_of contains lookup String_discrete
cycle_found = refl

no_cycle_found : would_create_cycle chain.tasks "a" "c" ≡ false
unfolding would_create_cycle search push_all total_deps deps_of contains lookup String_discrete
no_cycle_found = refl

search_total_example :
    (b : Bool) × (search (suc (total_deps chain.tasks)) chain.tasks "c" [] ("a" ∷ []) ≡ some b)
search_total_example = search_total chain.tasks "c" "a"

would_create_cycle_iff_example :
    (would_create_cycle chain.tasks "c" "a" ≡ true) ↔ ∥ Reach chain.tasks "a" "c" ∥₁
would_create_cycle_iff_example = would_create_cycle_iff chain.tasks "c" "a"

-- A task that is restored, which waits for one that is not there; and the same with a new title.
abbrev restored : Task ℕ
restored = task "a" ("c" ∷ [])

abbrev any_calls : List (AnyCall ℕ)
any_calls = restore restored ∷ update 5 "a" (record restored { title = "New" }) ∷ []

restored-IsSound : (title : String) → IsSound "a" (record restored { title = title })
restored-IsSound title = record { keyed = refl; deps_once = (λ h. h, tt); tags_once = tt }

free : would_create_cycle {J = ℕ} [] "a" "c" ≡ false
unfolding would_create_cycle search push_all total_deps deps_of contains lookup String_discrete
free = refl

still_free : would_create_cycle (restore_task empty restored).state.tasks "a" "c" ≡ false
unfolding would_create_cycle search push_all total_deps deps_of contains lookup String_discrete
    restore_task insert empty
still_free = refl

only_c : (x : String) → In x ("c" ∷ []) → x ≡ "c"
only_c x (inl e) = e
only_c x (inr n) = absurd n

run_any-empty-Inv_example : Inv (run_any empty any_calls).tasks
unfolding empty
run_any-empty-Inv_example = run_any-empty-Inv any_calls (
  record {
    sound = restored-IsSound "Title";
    apart = λ x h p.
        would_create_cycle-false [] "a" "c" free
          (subst (λ y. Reach {J = ℕ} [] y "a") (only_c x h) p);
  },
  (
    record {
      sound = restored-IsSound "New";
      apart = λ x h p.
          would_create_cycle-false (restore_task empty restored).state.tasks "a" "c" still_free
            (subst (λ y. Reach (restore_task empty restored).state.tasks y "a") (only_c x h) p);
    },
    tt,
  ),
)

add_dependency-IsAcyclic_example :
    IsAcyclic (add_dependency (run empty calls) 9 "b" "a").state.tasks
add_dependency-IsAcyclic_example =
    add_dependency-IsAcyclic (run empty calls) 9 "b" "a" (run-empty-Inv calls).acyclic

get_ready_tasks_iff_example : In (task "c" []) (get_ready_tasks chain) ↔ (
    (k : String) × (lookup k chain.tasks ≡ some (task "c" []))
    × (pending ≡ pending)
    × Done chain.tasks [])
unfolding lookup String_discrete
get_ready_tasks_iff_example = get_ready_tasks_iff chain (task "c" []) (refl, (refl, (refl, tt)))

a_to_c : Admissible chain "a" "c"
unfolding lookup String_discrete would_create_cycle search
a_to_c = record {
  task = task "a" ("b" ∷ []);
  dependency = task "c" [];
  has_task = refl;
  has_dependency = refl;
  distinct = text_ne "a" "c" refl;
  apart = would_create_cycle-false chain.tasks "a" "c" no_cycle_found;
}

c_to_a : (add_dependency chain 9 "c" "a").result ≡ false
unfolding add_dependency would_create_cycle search push_all total_deps deps_of contains lookup
    String_discrete
c_to_a = refl

told : In ("task.deleted", task "c" []) (sent_by chain (delete "c"))
unfolding sent_by delete_task lookup String_discrete
told = inl refl

abbrev stored : Task Value
stored = record {
  id = "a";
  title = "Title";
  description = "";
  assignee = "";
  creator = "ann";
  status = completed;
  priority = medium;
  dependencies = "b" ∷ [];
  tags = [];
  context = Values.null;
  created_at = 5;
  updated_at = 1700000000123456789;
  deadline = none;
  completed_at = some 1700000000123456789;
}

task_from_json-task_to_json_example :
    task_from_json json_values (task_to_json json_values stored)
    ≡ some (in_millis json_values stored)
task_from_json-task_to_json_example = task_from_json-task_to_json json_values stored (record {
  created = omega arith;
  updated = omega arith;
  deadline = λ d e. cc (e);
  completed = λ d e. ground arith;
})
