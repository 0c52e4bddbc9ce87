-- ===== src/Tasks/Frame.antt =====
-- A call changes one entry at most, and the callback is told of what the table then holds.
use swarm_mcp.Prelude.{
  ℕ, String, ◌⊎◌, ◌≡◌, ◌≢◌, refl, inl, inr, false, Option, none, some, List, [], ◌∷◌, ◌++◌, arith,
  In, ◌∙◌, if◌then◌else◌, Option-cases,
}
use swarm_mcp.Dict.{lookup, lookup-insert, lookup-erase}
use swarm_mcp.Tasks.Task.{Task, in_progress, remove_first, is_completed}
use swarm_mcp.Tasks.Manager.{
  TaskManager, create_task, delete_task, assign_task, set_status, add_dependency, remove_dependency,
  add_tag, on_task_event,
}
use swarm_mcp.Tasks.History.{
  Call, step, create, delete, assign, change_status, depend, undepend, tag, listen,
}

module _ {J : Type 0} where
  -- The id whose entry a call may change.
  unfoldable pub target : Call J → Option String
  target (create null uuid now now' title creator description priority) = some uuid
  target (delete id) = some id
  target (assign now id agent_id) = some id
  target (change_status now now' id status) = some id
  target (depend now id dep_id) = some id
  target (undepend now id dep_id) = some id
  target (tag now id name) = some id
  target (listen given) = none

  -- What a call sends to the callback.
  unfoldable pub sent_by : TaskManager J → Call J → List (String × Task J)
  sent_by m (create null uuid now now' title creator description priority) =
      (create_task m null uuid now now' title creator description priority).sent
  sent_by m (delete id) = (delete_task m id).sent
  sent_by m (assign now id agent_id) = (assign_task m now id agent_id).sent
  sent_by m (change_status now now' id status) = (set_status m now now' id status).sent
  sent_by m (depend now id dep_id) = (add_dependency m now id dep_id).sent
  sent_by m (undepend now id dep_id) = (remove_dependency m now id dep_id).sent
  sent_by m (tag now id name) = (add_tag m now id name).sent
  sent_by m (listen given) = []

  -- What is found under an id is the same after every call that is not a call on that id.
  pub step_frame :
      (m : TaskManager J) (c : Call J) (j : String)
      → target c ≢ some j
      → lookup j (step m c).tasks ≡ lookup j m.tasks
  unfolding target step create_task delete_task assign_task set_status add_dependency
      remove_dependency add_tag on_task_event
  step_frame m (create null uuid now now' title creator description priority) j h =
      lookup-insert uuid j _ m.tasks ∙ ground arith
  step_frame m (delete id) j h = ground (arith, lookup-erase id j m.tasks)
  step_frame m (assign now id agent_id) j h = elim (Option-cases (lookup id m.tasks)) [
    | inl e ↦ ground arith
    | inr (t, e) ↦ rw (e, step, assign_task) (lookup-insert id j _ m.tasks ∙ ground arith)
  ]
  step_frame m (change_status now now' id status) j h = elim (Option-cases (lookup id m.tasks)) [
    | inl e ↦ ground arith
    | inr (t, e) ↦ rw (e, step, set_status) (lookup-insert id j _ m.tasks ∙ ground arith)
  ]
  step_frame m (depend now id dep_id) j h = elim (Option-cases (lookup id m.tasks)) [
    | inl e ↦ ground arith
    | inr (t, e) ↦ ground (
      arith,
      lookup-insert id j
          (record t { dependencies = t.dependencies ++ dep_id ∷ []; updated_at = now }) m.tasks,
    )
  ]
  step_frame m (undepend now id dep_id) j h = elim (Option-cases (lookup id m.tasks)) [
    | inl e ↦ ground arith
    | inr (t, e) ↦ ground (
      arith,
      lookup-insert id j
          (record t { dependencies = remove_first dep_id t.dependencies; updated_at = now })
          m.tasks,
    )
  ]
  step_frame m (tag now id name) j h = elim (Option-cases (lookup id m.tasks)) [
    | inl e ↦ ground arith
    | inr (t, e) ↦ ground (
      arith,
      lookup-insert id j (record t { tags = t.tags ++ name ∷ []; updated_at = now }) m.tasks,
    )
  ]
  step_frame m (listen given) j h = refl

  -- While no callback is registered a call sends nothing.
  pub sent_by-silent : (m : TaskManager J) (c : Call J) → m.listening ≡ false → sent_by m c ≡ []
  unfolding sent_by create_task delete_task assign_task set_status add_dependency remove_dependency
      add_tag
  sent_by-silent m (depend now id dep_id) h = ground arith
  sent_by-silent m c h = ground arith

  -- A task that the callback is told of in a call is what lies under the call's id after it, or, if
  -- the call is a deletion, what lay there before.
  pub sent_by-committed :
      (m : TaskManager J) (c : Call J) (event : String) (t : Task J)
      → In (event, t) (sent_by m c)
      → (k : String) × (target c ≡ some k)
        × ((lookup k (step m c).tasks ≡ some t) ⊎ ((c ≡ delete k) × (lookup k m.tasks ≡ some t)))
  unfolding sent_by target step create_task delete_task assign_task set_status add_dependency
      remove_dependency add_tag
  sent_by-committed m (create null uuid now now' title creator description priority) event t h =
      (uuid, refl, inl (lookup-insert uuid uuid _ m.tasks ∙ ground arith))
  sent_by-committed m (delete id) event t h = elim (Option-cases (lookup id m.tasks)) [
    | inl e ↦ absurd (ground arith)
    | inr (u, e) ↦ (id, refl, inr (refl, ground arith))
  ]
  sent_by-committed m (assign now id agent_id) event t h = elim (Option-cases (lookup id m.tasks)) [
    | inl e ↦ absurd (ground arith)
    | inr (u, e) ↦ (
      id,
      refl,
      inl (
          ground (
            arith,
            lookup-insert id id
                (record u { assignee = agent_id; status = in_progress; updated_at = now }) m.tasks,
          )),
    )
  ]
  sent_by-committed m (change_status now now' id status) event t h =
      elim (Option-cases (lookup id m.tasks)) [
        | inl e ↦ absurd (ground arith)
        | inr (u, e) ↦
            let stamp : Option ℕ = if is_completed status then some now' else u.completed_at in
            (
              id,
              refl,
              inl (
                  ground (
                    arith,
                    lookup-insert id id
                        (record u { status = status; updated_at = now; completed_at = stamp })
                        m.tasks,
                  )),
            )
      ]
  sent_by-committed m (depend now id dep_id) event t h = elim (Option-cases (lookup id m.tasks)) [
    | inl e ↦ absurd (ground arith)
    | inr (u, e) ↦ (
      id,
      refl,
      inl (
          ground (
            arith,
            lookup-insert id id
                (record u { dependencies = u.dependencies ++ dep_id ∷ []; updated_at = now })
                m.tasks,
          )),
    )
  ]
  sent_by-committed m (undepend now id dep_id) event t h = elim (Option-cases (lookup id m.tasks)) [
    | inl e ↦ absurd (ground arith)
    | inr (u, e) ↦ (
      id,
      refl,
      inl (
          ground (
            arith,
            lookup-insert id id
                (record u { dependencies = remove_first dep_id u.dependencies; updated_at = now })
                m.tasks,
          )),
    )
  ]
  sent_by-committed m (tag now id name) event t h = absurd (ground arith)
  sent_by-committed m (listen given) event t h = absurd h
