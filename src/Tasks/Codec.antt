-- ===== src/Tasks/Codec.antt =====
-- `Task::to_json` and `Task::from_json`. A stored time keeps its milliseconds.
use swarm_mcp.Prelude.{
  ℕ, ◌<◌, ◌^◌, String, ◌≡◌, refl, true, false, Option, none, some, List, [], ◌∷◌, arith, ite,
  if◌then◌else◌, String_discrete, to_millis, of_millis, ◌==◌, ◌∙◌,
}
use mathlib.Core.Option
use swarm_mcp.Dict.{Dict, lookup}
use swarm_mcp.Json.{JsonLib, ◌>>=◌}
use swarm_mcp.Tasks.Task.{
  Task, task_status_str, task_status_from_str, task_priority_str, task_priority_from_str,
  task_status_from_str-task_status_str, task_priority_from_str-task_priority_str,
}

module _ (lib : JsonLib) where
  open lib use {
    Value, text, number, texts, object, set, is_object, is_number, member, as_text, as_texts,
    as_int64, value, is_object-object, is_object-set, is_number-number, member-object, member-set,
    as_text-text, as_texts-texts, as_int64-number, value-found,
  }

  -- j[key] = time, where there is a time.
  pub set_time : Value → String → Option ℕ → Value
  set_time j key none = j
  set_time j key (some time) = set j key (number (to_millis time))

  abbrev pub task_fields : Task Value → Dict Value
  task_fields t =
      ("id", text t.id)
      ∷ ("title", text t.title)
      ∷ ("description", text t.description)
      ∷ ("assignee", text t.assignee)
      ∷ ("creator", text t.creator)
      ∷ ("status", text (task_status_str t.status))
      ∷ ("priority", text (task_priority_str t.priority))
      ∷ ("dependencies", texts t.dependencies)
      ∷ ("tags", texts t.tags)
      ∷ ("context", t.context)
      ∷ ("created_at", number (to_millis t.created_at))
      ∷ ("updated_at", number (to_millis t.updated_at))
      ∷ []

  unfoldable pub task_to_json : Task Value → Value
  unfolding set_time
  task_to_json t =
      set_time (set_time (object (task_fields t)) "deadline" t.deadline) "completed_at"
        t.completed_at

  -- A member that is there and is a number.
  pub time_member : Value → String → Option (Option ℕ)
  time_member j key = elim (member j key) [
    | none ↦ some none
    | some v ↦ if is_number v then (do ms ← as_int64 v; some (some (of_millis ms))) else some none
  ]

  unfoldable pub task_from_json : Value → Option (Task Value)
  unfolding time_member
  task_from_json j = do
    id ← value as_text j "id" ""
    title ← value as_text j "title" ""
    description ← value as_text j "description" ""
    assignee ← value as_text j "assignee" ""
    creator ← value as_text j "creator" ""
    status ← value as_text j "status" "pending"
    priority ← value as_text j "priority" "medium"
    dependencies ← value as_texts j "dependencies" []
    tags ← value as_texts j "tags" []
    context ← value some j "context" (object [])
    created ← value as_int64 j "created_at" 0
    updated ← value as_int64 j "updated_at" 0
    deadline ← time_member j "deadline"
    completed_at ← time_member j "completed_at"
    some (record {
      id = id;
      title = title;
      description = description;
      assignee = assignee;
      creator = creator;
      status = task_status_from_str status;
      priority = task_priority_from_str priority;
      dependencies = dependencies;
      tags = tags;
      context = context;
      created_at = of_millis created;
      updated_at = of_millis updated;
      deadline = deadline;
      completed_at = completed_at;
    })

  -- What of a task its JSON form keeps.
  pub in_millis : Task Value → Task Value
  in_millis t = record t {
    created_at = of_millis (to_millis t.created_at);
    updated_at = of_millis (to_millis t.updated_at);
    deadline = Option.map (λ d. of_millis (to_millis d)) t.deadline;
    completed_at = Option.map (λ d. of_millis (to_millis d)) t.completed_at;
  }

  is_object-set_time :
      (j : Value) (key : String) (o : Option ℕ)
      → is_object j ≡ true
      → is_object (set_time j key o) ≡ true
  unfolding set_time
  is_object-set_time j key none h = h
  is_object-set_time j key (some time) h = is_object-set j key _ h

  member-set_time :
      (j : Value) (key i : String) (o : Option ℕ)
      → is_object j ≡ true
      → member (set_time j key o) i
        ≡ ite
            (String_discrete key i)
            (elim o [ none ↦ member j i | some time ↦ some (number (to_millis time)) ])
            (member j i)
  unfolding set_time
  member-set_time j key i none h = ground arith
  member-set_time j key i (some time) h = member-set j key i _ h

  module _ (t : Task Value) where
    member-task_to_json :
        (i : String)
        → member (task_to_json t) i
          ≡ ite
              (String_discrete "completed_at" i)
              (elim t.completed_at [
                | none ↦ member (set_time (object (task_fields t)) "deadline" t.deadline) i
                | some time ↦ some (number (to_millis time))
              ])
              (ite
                (String_discrete "deadline" i)
                (elim t.deadline [
                  | none ↦ lookup i (task_fields t)
                  | some time ↦ some (number (to_millis time))
                ])
                (lookup i (task_fields t)))
    unfolding task_to_json
    member-task_to_json i = ground (
      arith,
      member-set_time (set_time (object (task_fields t)) "deadline" t.deadline) "completed_at" i
          t.completed_at,
      is_object-set_time (object (task_fields t)) "deadline" t.deadline,
      is_object-object (task_fields t),
      member-set_time (object (task_fields t)) "deadline" i t.deadline,
      member-object (task_fields t) i,
    )

    kept :
        (i : String) (v : Value)
        → ("completed_at" == i) ≡ false
        → ("deadline" == i) ≡ false
        → lookup i (task_fields t) ≡ some v
        → member (task_to_json t) i ≡ some v
    kept i v c d e = ground (arith, member-task_to_json i)

    read_text :
        (i : String) (s d : String)
        → member (task_to_json t) i ≡ some (text s)
        → value as_text (task_to_json t) i d ≡ some s
    read_text i s d e = value-found as_text (task_to_json t) (text s) i d e ∙ as_text-text s

    read_texts :
        (i : String) (l d : List String)
        → member (task_to_json t) i ≡ some (texts l)
        → value as_texts (task_to_json t) i d ≡ some l
    read_texts i l d e = value-found as_texts (task_to_json t) (texts l) i d e ∙ as_texts-texts l

    read_time :
        (i : String) (time : ℕ)
        → time < 2 ^ 63
        → member (task_to_json t) i ≡ some (number (to_millis time))
        → value as_int64 (task_to_json t) i 0 ≡ some (to_millis time)
    read_time i time h e =
        value-found as_int64 (task_to_json t) (number (to_millis time)) i 0 e
        ∙ as_int64-number (to_millis time) (omega arith)

    read_context : value some (task_to_json t) "context" (object []) ≡ some t.context
    unfolding lookup String_discrete
    read_context =
        value-found some (task_to_json t) t.context "context" (object [])
          (kept "context" t.context refl refl refl)

    completed_member :
        member (task_to_json t) "completed_at"
        ≡ elim t.completed_at [ none ↦ none | some time ↦ some (number (to_millis time)) ]
    unfolding lookup String_discrete
    completed_member = ground (
      arith,
      member-task_to_json "completed_at",
      member-set_time (object (task_fields t)) "deadline" "completed_at" t.deadline,
      is_object-object (task_fields t),
      member-object (task_fields t) "completed_at",
    )

  time_member-found :
      (j : Value) (key : String) (o : Option ℕ)
      → ((d : ℕ) → o ≡ some d → d < 2 ^ 63)
      → member j key ≡ elim o [ none ↦ none | some time ↦ some (number (to_millis time)) ]
      → time_member j key ≡ some (Option.map (λ d. of_millis (to_millis d)) o)
  unfolding time_member
  time_member-found j key none h e = rw (e, time_member)
  time_member-found j key (some time) h e = rw (
    e,
    time_member,
    is_number-number,
    as_int64-number (to_millis time) (let q = h time refl in omega arith),
  )

  -- The times of a task count fewer than 2 ^ 63 nanoseconds, as the clock's `int64_t` does.
  pub record InRange (t : Task Value) : Type 0 where
    pub created : t.created_at < 2 ^ 63
    pub updated : t.updated_at < 2 ^ 63
    pub deadline : (d : ℕ) → t.deadline ≡ some d → d < 2 ^ 63
    pub completed : (d : ℕ) → t.completed_at ≡ some d → d < 2 ^ 63

  -- A task whose times, in nanoseconds, are below 2 ^ 63 is read back from its JSON form, with its
  -- times cut to milliseconds.
  pub task_from_json-task_to_json :
      (t : Task Value) → InRange t → task_from_json (task_to_json t) ≡ some (in_millis t)
  unfolding task_from_json lookup String_discrete in_millis
  task_from_json-task_to_json t h = rw (
    read_text t "id" t.id "" (kept t "id" _ refl refl refl),
    read_text t "title" t.title "" (kept t "title" _ refl refl refl),
    read_text t "description" t.description "" (kept t "description" _ refl refl refl),
    read_text t "assignee" t.assignee "" (kept t "assignee" _ refl refl refl),
    read_text t "creator" t.creator "" (kept t "creator" _ refl refl refl),
    read_text t "status" (task_status_str t.status) "pending" (kept t "status" _ refl refl refl),
    read_text t "priority" (task_priority_str t.priority) "medium"
        (kept t "priority" _ refl refl refl),
    read_texts t "dependencies" t.dependencies [] (kept t "dependencies" _ refl refl refl),
    read_texts t "tags" t.tags [] (kept t "tags" _ refl refl refl),
    read_context t,
    read_time t "created_at" t.created_at h.created (kept t "created_at" _ refl refl refl),
    read_time t "updated_at" t.updated_at h.updated (kept t "updated_at" _ refl refl refl),
    time_member-found (task_to_json t) "deadline" t.deadline h.deadline
        (member-task_to_json t "deadline"),
    time_member-found (task_to_json t) "completed_at" t.completed_at h.completed
        (completed_member t),
    task_status_from_str-task_status_str,
    task_priority_from_str-task_priority_str,
  )
