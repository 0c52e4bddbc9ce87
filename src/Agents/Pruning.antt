-- ===== src/Agents/Pruning.antt =====
-- `prune_stale` erases exactly the agents without a recent heartbeat.
use swarm_mcp.Prelude.{
  ℕ, ◌+◌, String, ◌≡◌, refl, Option, none, some, [], ◌∷◌, arith, length, length-map, if◌then◌else◌,
}
use swarm_mcp.Dict.{Dict, lookup, Once}
use swarm_mcp.Agents.Agent.{AgentInfo}
use swarm_mcp.Agents.Registry.{AgentRegistry, stale, prune_loop, prune_stale, count}

module _ {J : Type 0} where
  abbrev pub unless_stale : ℕ → ℕ → Option (AgentInfo J) → Option (AgentInfo J)
  unless_stale now timeout none = none
  unless_stale now timeout (some a) = if stale now timeout a then none else some a

  lookup-prune_loop :
      (now timeout : ℕ) (m : Dict (AgentInfo J)) (k : String)
      → Once m
      → lookup k (prune_loop now timeout m).0 ≡ unless_stale now timeout (lookup k m)
  unfolding lookup prune_loop
  lookup-prune_loop now timeout [] k o = refl
  lookup-prune_loop now timeout ((j, a) ∷ m) k o =
      ground (arith, lookup-prune_loop now timeout m k o.1)

  Once-prune_loop :
      (now timeout : ℕ) (m : Dict (AgentInfo J)) → Once m → Once (prune_loop now timeout m).0
  unfolding prune_loop
  Once-prune_loop now timeout [] o = tt
  Once-prune_loop now timeout ((j, a) ∷ m) o =
      let rest = Once-prune_loop now timeout m o.1 in
      ground (arith, lookup-prune_loop now timeout m j o.1)

  length-prune_loop :
      (now timeout : ℕ) (m : Dict (AgentInfo J))
      → length (prune_loop now timeout m).0 + length (prune_loop now timeout m).1 ≡ length m
  unfolding prune_loop
  length-prune_loop now timeout [] = refl
  length-prune_loop now timeout ((j, a) ∷ m) = ground (arith, length-prune_loop now timeout m)

  module _ (r : AgentRegistry J) (now timeout : ℕ) where
    -- Where no key is twice in the table, after `prune_stale` an agent is found exactly if it was
    -- there and not stale, and then it is as it was; and still no key is twice in the table.
    pub lookup-prune_stale :
        Once r.agents
        → ((k : String)
            → lookup k (prune_stale r now timeout).state.agents
              ≡ unless_stale now timeout (lookup k r.agents))
          × Once (prune_stale r now timeout).state.agents
    unfolding prune_stale
    lookup-prune_stale o =
        (λ k. lookup-prune_loop now timeout r.agents k o, Once-prune_loop now timeout r.agents o)

    -- `prune_stale` answers the number of agents that the table has lost, and the callback, if there is
    -- one, is called that many times, else never.
    pub count-prune_stale :
        (count (prune_stale r now timeout).state + (prune_stale r now timeout).result ≡ count r)
        × (length (prune_stale r now timeout).sent
            ≡ (if r.listening then (prune_stale r now timeout).result else 0))
    unfolding prune_stale count
    count-prune_stale = (
      length-prune_loop now timeout r.agents,
      ground (
        arith,
        length-map {B = String × AgentInfo J} (λ a. ("agent.pruned", a))
            (prune_loop now timeout r.agents).1,
      ),
    )
