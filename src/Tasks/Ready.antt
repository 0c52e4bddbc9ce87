-- ===== src/Tasks/Ready.antt =====
-- What the read-only methods return: exactly the tasks that their conditions describe.
use swarm_mcp.Prelude.{
  ℕ, String, ◌≡◌, refl, ◌↔◌, ◌⊎◌, inl, inr, Bool, true, Option, none, some, List, [], ◌∷◌, ◌++◌,
  arith, In, contains, In-of_contains, contains_of_In, ◌==◌, Bool-cases, Option-cases, decides,
  String_discrete,
}
use swarm_mcp.Text.{lower, occurs, occurs-true, occurs-append}
use swarm_mcp.Dict.{Dict, lookup, Once, In-select_of_lookup, lookup_of_In-select}
use swarm_mcp.Tasks.Task.{
  Task, TaskStatus, TaskPriority, pending, completed, is_pending, is_completed, TaskStatus-discrete,
  TaskPriority-discrete,
}
use swarm_mcp.Tasks.Manager.{TaskManager}
use swarm_mcp.Tasks.Queries.{
  TaskFilter, mentions, selects, list_tasks, all_complete, get_ready_tasks, passes,
}

is_completed-true : (s : TaskStatus) → is_completed s ≡ true → s ≡ completed
unfolding is_completed
is_completed-true s h = ground arith

passes_of :
    {A : Type 0} (test : A → Bool) (o : Option A)
    → ((a : A) → o ≡ some a → test a ≡ true)
    → passes test o ≡ true
passes_of test none h = refl
passes_of test (some a) h = h a refl

-- `p` stands somewhere in `s`.
abbrev pub Within : List ℕ → List ℕ → Type 0
Within p s = (before : List ℕ) × (after : List ℕ) × (s ≡ before ++ (p ++ after))

Within-occurs : (p s : List ℕ) → Within p s → occurs p s ≡ true
Within-occurs p s (before, after, e) = rw e (occurs-append before p after)

module _ {J : Type 0} where
  -- Each of these tasks is in the table, and completed.
  abbrev pub Done : Dict (Task J) → List String → Type 0
  Done ts ds =
      (d : String) → In d ds → (u : Task J) × (lookup d ts ≡ some u) × (u.status ≡ completed)

  all_complete-true :
      (ts : Dict (Task J)) (ds : List String) → all_complete ts ds ≡ true → Done ts ds
  unfolding all_complete
  all_complete-true ts [] h x m = absurd m
  all_complete-true ts (d ∷ ds) h x m = elim (Option-cases (lookup d ts)) [
    | inl e ↦ ground arith
    | inr (u, e) ↦ elim m [
      | inl same ↦ (u, ground arith, is_completed-true u.status (ground arith))
      | inr later ↦ all_complete-true ts ds (ground arith) x later
    ]
  ]

  all_complete_of_Done :
      (ts : Dict (Task J)) (ds : List String) → Done ts ds → all_complete ts ds ≡ true
  unfolding all_complete is_completed
  all_complete_of_Done ts [] h = refl
  all_complete_of_Done ts (d ∷ ds) h =
      let (u, e, s) = h d (inl refl) in
      ground (arith, all_complete_of_Done ts ds (λ x m. h x (inr m)))

  -- Where no key is twice in the table, `get_ready_tasks` returns exactly the stored tasks that are
  -- pending and whose dependencies are all stored and completed.
  pub get_ready_tasks_iff :
      (m : TaskManager J) (t : Task J)
      → Once m.tasks
      → In t (get_ready_tasks m) ↔ (
          (k : String) × (lookup k m.tasks ≡ some t)
          × (t.status ≡ pending)
          × Done m.tasks t.dependencies)
  unfolding get_ready_tasks is_pending
  get_ready_tasks_iff m t once = (
    λ h.
        let (k, e, p) = lookup_of_In-select _ t m.tasks once h in
        (k, e, ground arith, all_complete-true m.tasks t.dependencies (ground arith)),
    λ h.
        In-select_of_lookup _ t h.0 m.tasks h.1
          (ground (arith, all_complete_of_Done m.tasks t.dependencies h.3)),
  )

  -- The search term is empty, or it is in the title or in the description, letters in any case.
  abbrev pub Mentions : String → Task J → Type 0
  Mentions term t =
      (term ≡ "")
      ⊎ (Within (lower term) (lower t.title) ⊎ Within (lower term) (lower t.description))

  mentions-true : (term : String) (t : Task J) → mentions term t ≡ true → Mentions term t
  unfolding mentions
  mentions-true term t h = elim (String_discrete term "") [
    | yes e ↦ inl e
    | no n ↦ elim (Bool-cases (occurs (lower term) (lower t.title))) [
      | inl a ↦ inr (inl (occurs-true _ _ a))
      | inr b ↦ inr (inr (occurs-true _ _ (ground arith)))
    ]
  ]

  mentions_of : (term : String) (t : Task J) → Mentions term t → mentions term t ≡ true
  unfolding mentions
  mentions_of term t (inl e) = ground arith
  mentions_of term t (inr (inl w)) = let q = Within-occurs _ _ w in ground arith
  mentions_of term t (inr (inr w)) = let q = Within-occurs _ _ w in ground arith

  -- What it means that a task passes a filter.
  pub record Selects (f : TaskFilter) (t : Task J) : Type 0 where
    pub status : (s : TaskStatus) → f.status ≡ some s → t.status ≡ s
    pub priority : (p : TaskPriority) → f.priority ≡ some p → t.priority ≡ p
    pub assignee : (a : String) → f.assignee ≡ some a → t.assignee ≡ a
    pub tag : (g : String) → f.tag ≡ some g → In g t.tags
    pub term : Mentions f.search_term t

  selects-true : (f : TaskFilter) (t : Task J) → selects f t ≡ true → Selects f t
  unfolding selects
  selects-true f t h = record {
    status = λ s e. ground arith;
    priority = λ p e. ground arith;
    assignee = λ a e. ground arith;
    tag = λ g e. In-of_contains t.tags g (ground arith);
    term = mentions-true f.search_term t (ground arith);
  }

  selects_of : (f : TaskFilter) (t : Task J) → Selects f t → selects f t ≡ true
  unfolding selects
  selects_of f t h =
      let status =
        passes_of (λ (s : TaskStatus). decides (TaskStatus-discrete t.status s)) f.status
          (λ s e. ground (arith, h.status s e)) in
      let priority =
        passes_of (λ (p : TaskPriority). decides (TaskPriority-discrete t.priority p)) f.priority
          (λ p e. ground (arith, h.priority p e)) in
      let assignee =
        passes_of (λ (a : String). t.assignee == a) f.assignee
          (λ a e. ground (arith, h.assignee a e)) in
      let tag =
        passes_of (λ (g : String). contains t.tags g) f.tag
          (λ g e. contains_of_In t.tags g (h.tag g e)) in
      let term = mentions_of f.search_term t h.term in ground arith

  -- Where no key is twice in the table, `list_tasks` returns exactly the stored tasks that meet
  -- every part of the filter that is set.
  pub list_tasks_iff :
      (m : TaskManager J) (f : TaskFilter) (t : Task J)
      → Once m.tasks
      → In t (list_tasks m f) ↔ ((k : String) × (lookup k m.tasks ≡ some t) × Selects f t)
  unfolding list_tasks
  list_tasks_iff m f t once = (
    λ h. let (k, e, p) = lookup_of_In-select _ t m.tasks once h in (k, e, selects-true f t p),
    λ h. In-select_of_lookup _ t h.0 m.tasks h.1 (selects_of f t h.2),
  )
