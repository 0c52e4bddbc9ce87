-- ===== src/Context/Examples.antt =====
-- The theorems on context entries at concrete inputs, and tests of the definitions.
use swarm_mcp.Prelude.{ℕ, ◌≡◌, refl, Bool, true, false, List, [], ◌∷◌, ◌++◌ as ◌⧺◌, String_discrete}
use swarm_mcp.Text.{starts_with}
use swarm_mcp.Dict.{lookup}
use swarm_mcp.Context.Store.{
  ContextEntry, ContextStore, JsonEdit, changed, set, write, notify, list, entries_under,
}
use swarm_mcp.Context.Versions.{setting, step, Becomes, step-Becomes}

-- Values that are arrays of numbers, or else one object.
pub data Small : Type 0 where
  object : Small
  array : List ℕ → Small

abbrev is_object : Small → Bool
is_object object = true
is_object _ = false

abbrev is_array : Small → Bool
is_array (array l) = true
is_array _ = false

abbrev elements : Small → List Small
elements object = []
elements (array []) = []
elements (array (n ∷ ns)) = array (n ∷ []) ∷ elements (array ns)

abbrev flat : List Small → List ℕ
flat [] = []
flat (object ∷ vs) = flat vs
flat (array ns ∷ vs) = ns ⧺ flat vs

abbrev small : JsonEdit Small
small = record {
  is_object = is_object;
  is_array = is_array;
  merge_patch = λ old patch. old;
  elements = elements;
  array = λ vs. array (flat vs);
}

abbrev entry : ContextEntry Small
entry = record {
  key = "plan";
  value = array (1 ∷ 2 ∷ []);
  owner = "ann";
  updated_at = 5;
  version = 3;
}

abbrev store : ContextStore Small
store = record { store = ("plan", entry) ∷ []; listening = true }

step-Becomes_example :
    Becomes
      (setting 9 "plan" object "bob")
      "plan"
      entry
      (lookup "plan" (step small store (setting 9 "plan" object "bob")).store)
unfolding lookup String_discrete
step-Becomes_example = step-Becomes small store (setting 9 "plan" object "bob") "plan" entry refl

told_of_update :
    (set store 9 "plan" object "bob").sent ≡ ("plan", changed 9 entry object "bob", "updated") ∷ []
unfolding set write notify lookup String_discrete
told_of_update = refl

listed : list store "pl" ≡ entry ∷ []
unfolding list entries_under starts_with String_discrete
listed = refl
