-- ===== src/Tasks/Search/Graph.antt =====
-- The graph that the search walks: its edges, its paths, and what it means that it has no cycle.
use swarm_mcp.Prelude.{String, In}
use swarm_mcp.Dict.{Dict}
use swarm_mcp.Tasks.Task.{Task}
use swarm_mcp.Tasks.Search.{deps_of}

module _ {J : Type 0} where
  -- Task `a` lists `b` among its dependencies.
  abbrev pub Edge : Dict (Task J) → String → String → Type 0
  Edge ts a b = In b (deps_of ts a)

pub data Reach {J : Type 0} (ts : Dict (Task J)) (a : String) : String → Type 0 where
  here : Reach ts a a
  step : {b c : String} → Reach ts a b → Edge ts b c → Reach ts a c

module _ {J : Type 0} where
  -- No task depends on itself, directly or through others.
  abbrev pub IsAcyclic : Dict (Task J) → Type 0
  IsAcyclic ts = (a b : String) → Edge ts a b → ¬ Reach ts b a

  pub Reach-trans :
      {ts : Dict (Task J)} {a b c : String} → Reach ts a b → Reach ts b c → Reach ts a c
  Reach-trans p here = p
  Reach-trans p (step q e) = step (Reach-trans p q) e
