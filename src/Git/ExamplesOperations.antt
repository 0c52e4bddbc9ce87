-- ===== src/Git/ExamplesOperations.antt =====
-- The theorems on the git program at concrete inputs, and tests of the definitions.
use swarm_mcp.Prelude.{◌≡◌, refl, true, false, [], ◌∷◌, arith, String_discrete}
use swarm_mcp.Int.{pos}
use swarm_mcp.Git.Commands.{commit}
use swarm_mcp.Git.Tokens.{tokenize_args, tokenize_args-quoted, flush}
use swarm_mcp.Git.Operations.{Program, argv_of, branches}
use swarm_mcp.Git.Reading.{branches-printed}

three_arguments : tokenize_args "commit -m 'two words'" ≡ "commit" ∷ "-m" ∷ "two words" ∷ []
unfolding tokenize_args
three_arguments = refl

with_author :
    argv_of (commit "done" "ann") ≡ "commit" ∷ "-m" ∷ "done" ∷ "--author" ∷ "ann <ann>" ∷ []
unfolding argv_of String_discrete
with_author = refl

tokenize_args-quoted_example : tokenize_args "\"a b\" \"\" \"c\" " ≡ "a b" ∷ "c" ∷ []
unfolding flush
tokenize_args-quoted_example = tokenize_args-quoted ("a b" ∷ "" ∷ "c" ∷ []) (ground arith)

-- A repository whose git prints two branches.
abbrev two_branches : Program
two_branches = record {
  Repo = Unit;
  exec = λ argv g. (
    record { success = true; exit_code = pos 0; stdout_out = "* main\n  dev\n"; stderr_out = "" },
    g,
  );
  weakly_canonical = λ p. p;
}

branches-printed_example : branches two_branches false tt ≡ "main" ∷ "dev" ∷ []
branches-printed_example =
    branches-printed two_branches false tt ((true, "main") ∷ (false, "dev") ∷ []) (ground arith)
      refl refl
