-- ===== src/Tasks/Task.antt =====
-- `Task`, its two enumerations and their texts. The type `J` of JSON values is a parameter, and a
-- point in time is its number of nanoseconds since the epoch.
use swarm_mcp.Prelude.{
  ◌≡◌, refl, String_discrete, ℕ, String, Bool, true, false, Option, List, [], ◌∷◌, ◌==◌,
  if◌then◌else◌,
}

pub data TaskStatus : Type 0 where
  pending in_progress blocked completed failed cancelled : TaskStatus

pub data TaskPriority : Type 0 where
  low medium high critical : TaskPriority

pub TaskStatus-discrete : Discrete TaskStatus
TaskStatus-discrete = hlevel

pub TaskPriority-discrete : Discrete TaskPriority
TaskPriority-discrete = hlevel

pub record Task (J : Type 0) : Type 0 where
  pub id : String
  pub title : String
  pub description : String
  pub assignee : String
  pub creator : String
  pub status : TaskStatus
  pub priority : TaskPriority
  pub dependencies : List String
  pub tags : List String
  pub context : J
  pub created_at : ℕ
  pub updated_at : ℕ
  pub deadline : Option ℕ
  pub completed_at : Option ℕ

unfoldable pub task_status_str : TaskStatus → String
task_status_str pending = "pending"
task_status_str in_progress = "in_progress"
task_status_str blocked = "blocked"
task_status_str completed = "completed"
task_status_str failed = "failed"
task_status_str cancelled = "cancelled"

unfoldable pub task_status_from_str : String → TaskStatus
task_status_from_str s =
    if s == "in_progress"
    then in_progress
    else if s == "blocked"
    then blocked
    else if s == "completed"
    then completed
    else if s == "failed"
    then failed
    else if s == "cancelled"
    then cancelled
    else pending

unfoldable pub task_priority_str : TaskPriority → String
task_priority_str low = "low"
task_priority_str medium = "medium"
task_priority_str high = "high"
task_priority_str critical = "critical"

unfoldable pub task_priority_from_str : String → TaskPriority
task_priority_from_str p =
    if p == "low"
    then low
    else if p == "high"
    then high
    else if p == "critical"
    then critical
    else medium

unfoldable pub is_completed : TaskStatus → Bool
is_completed completed = true
is_completed _ = false

unfoldable pub is_pending : TaskStatus → Bool
is_pending pending = true
is_pending _ = false

-- deps.erase(std::ranges::find(deps, x)), where `x` is there.
unfoldable pub remove_first : String → List String → List String
remove_first x [] = []
remove_first x (y ∷ ys) = if y == x then ys else y ∷ remove_first x ys

-- The texts name the values.
pub task_status_from_str-task_status_str :
    (s : TaskStatus) → task_status_from_str (task_status_str s) ≡ s
unfolding task_status_from_str task_status_str String_discrete
task_status_from_str-task_status_str pending = refl
task_status_from_str-task_status_str s = refl

pub task_priority_from_str-task_priority_str :
    (p : TaskPriority) → task_priority_from_str (task_priority_str p) ≡ p
unfolding task_priority_from_str task_priority_str String_discrete
task_priority_from_str-task_priority_str low = refl
task_priority_from_str-task_priority_str p = refl
