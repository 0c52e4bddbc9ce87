-- ===== src/Tasks/Search.antt =====
-- `would_create_cycle`: the depth-first search along dependencies.
pub mod Graph
pub mod Decides
use swarm_mcp.Prelude.{
  ℕ, zero, suc, ◌+◌, String, Bool, true, false, Option, none, some, List, [], ◌∷◌, length, contains,
  ◌==◌, if◌then◌else◌,
}
use swarm_mcp.Dict.{Dict, lookup}
use swarm_mcp.Tasks.Task.{Task}

-- The head of the list is the back of the vector.
unfoldable pub push_all : List String → List String → List String
push_all [] stack = stack
push_all (d ∷ ds) stack = push_all ds (d ∷ stack)

module _ {J : Type 0} where
  -- What the loop reads of `tasks_.find(current)`; a missing task has no dependencies.
  unfoldable pub deps_of : Dict (Task J) → String → List String
  deps_of ts k = elim (lookup k ts) [ none ↦ [] | some t ↦ t.dependencies ]

  unfoldable pub search : ℕ → Dict (Task J) → String → List String → List String → Option Bool
  search zero ts id visited [] = some false
  search zero ts id visited (current ∷ stack) = none
  search (suc fuel) ts id visited [] = some false
  search (suc fuel) ts id visited (current ∷ stack) =
      let skip = search fuel ts id visited stack in
      let expand = search fuel ts id (current ∷ visited) (push_all (deps_of ts current) stack) in
      if current == id then some true else if contains visited current then skip else expand

  unfoldable pub total_deps : Dict (Task J) → ℕ
  total_deps [] = 0
  total_deps ((k, t) ∷ ts) = length t.dependencies + total_deps ts

  -- One round for the start, and one for each dependency of each task, are enough rounds:
  -- `search_total`. So the value for a search that is out of fuel is never returned.
  unfoldable pub would_create_cycle : Dict (Task J) → String → String → Bool
  would_create_cycle ts id dep_id = elim (search (suc (total_deps ts)) ts id [] (dep_id ∷ [])) [
    | none ↦ false
    | some b ↦ b
  ]
