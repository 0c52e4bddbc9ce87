-- ===== src/Git/Threads.antt =====
-- The life of merge requests, where executions of several threads are interleaved with other calls.
use swarm_mcp.Prelude.{
  String, ◌≡◌, ◌⊎◌, ◌∙◌, sym, subst, refl, inl, inr, Bool, true, false, none, some, List, [], ◌∷◌,
  In, contains, In-of_contains, arith, Option-cases, Bool-cases, String_discrete, text_ne, ◌==◌,
  if◌then◌else◌,
}
use std.Option.{some-injective}
use swarm_mcp.Dict.{Dict, lookup, insert, lookup-insert}
use swarm_mcp.Git.Merges.{
  MergeStrategy, MergeRequest, MergeCoordinator, request_merge, approve_merge, reject_merge,
  begin_merge, finish_merge, on_change,
}
use swarm_mcp.Git.Approval.{begin_merge-lookup, begin_merge-approved}

-- The table, and the ids of the requests that some `execute_merge` has read and not yet written.
pub record Threads : Type 0 where
  pub coordinator : MergeCoordinator
  pub executing : List String

-- An `execute_merge` is a `begin` and, any calls later, a `finish` with what git answered.
pub data Call : Type 0 where
  request : (uuid source target requester : String) → MergeStrategy → Call
  approve : (merge_id reviewer : String) → Call
  reject : (merge_id reviewer reason : String) → Call
  begin : (merge_id : String) → Call
  finish : (merge_id : String) → (ok : Bool) → Call
  listen : Call

-- Without the first of the ids that is `id`.
abbrev without : String → List String → List String
without id [] = []
without id (k ∷ ks) = let rest = without id ks in if k == id then ks else k ∷ rest

In-without : (x id : String) (ks : List String) → In x (without id ks) → In x ks
In-without x id [] h = h
In-without x id (k ∷ ks) h = elim (Bool-cases (k == id)) [
  | inl hit ↦ inr (ground arith)
  | inr miss ↦ let rest = In-without x id ks in ground (arith, rest)
]

unfoldable pub step : Threads → Call → Threads
step s (request uuid source target requester strategy) = record s {
  coordinator = (request_merge s.coordinator uuid source target requester strategy).state;
}
step s (approve merge_id reviewer) = record s {
  coordinator = (approve_merge s.coordinator merge_id reviewer).state;
}
step s (reject merge_id reviewer reason) = record s {
  coordinator = (reject_merge s.coordinator merge_id reviewer reason).state;
}
step s (begin merge_id) = elim (begin_merge s.coordinator merge_id) [
  | none ↦ s
  | some req ↦ record s { executing = merge_id ∷ s.executing }
]
step s (finish merge_id ok) =
    if contains s.executing merge_id
    then record {
      coordinator = (finish_merge s.coordinator merge_id ok).state;
      executing = without merge_id s.executing;
    }
    else s
step s listen = record s { coordinator = on_change s.coordinator }

abbrev pub run : Threads → List Call → Threads
run s [] = s
run s (c ∷ cs) = run (step s c) cs

-- A status that a request has that was approved once.
abbrev pub WasApproved : String → Type 0
WasApproved status = (status ≡ "approved") ⊎ ((status ≡ "completed") ⊎ (status ≡ "failed"))

-- The changes of status that a call may make.
pub data Moves (a b : MergeRequest) : Type 0 where
  stays : a ≡ b → Moves a b
  approves : a.status ≡ "pending" → b.status ≡ "approved" → Moves a b
  rejects : a.status ≡ "pending" → b.status ≡ "rejected" → Moves a b
  completes : WasApproved a.status → b.status ≡ "completed" → Moves a b
  fails : WasApproved a.status → b.status ≡ "failed" → Moves a b

-- A new request has an id of its own.
abbrev pub IsFresh : Threads → Call → Type 0
IsFresh s (request uuid source target requester strategy) =
    lookup uuid s.coordinator.requests ≡ none
IsFresh s _ = Unit

abbrev pub AllFresh : Threads → List Call → Type 0
AllFresh s [] = Unit
AllFresh s (c ∷ cs) = IsFresh s c × AllFresh (step s c) cs

-- What is being executed was approved once.
abbrev pub Inv : Threads → Type 0
Inv s =
    (id : String)
    → In id s.executing
    → (r : MergeRequest) × (lookup id s.coordinator.requests ≡ some r) × WasApproved r.status

-- The table after a call that only writes the request it names.
goes-insert :
    (id k : String) (r a new : MergeRequest) (m : Dict MergeRequest)
    → lookup k m ≡ some a
    → lookup id m ≡ some r
    → Moves r new
    → (b : MergeRequest) × (lookup k (insert id new m) ≡ some b) × Moves a b
goes-insert id k r a new m at_k at_id moves = elim (String_discrete id k) [
  | yes hit ↦ (
    new,
    lookup-insert id k new m ∙ ground arith,
    subst (λ x. Moves x new) (some-injective (ground arith)) moves,
  )
  | no miss ↦ (a, lookup-insert id k new m ∙ ground arith, stays refl)
]

finish-Moves :
    (c : MergeCoordinator) (id k : String) (r a : MergeRequest) (ok : Bool)
    → lookup k c.requests ≡ some a
    → lookup id c.requests ≡ some r
    → WasApproved r.status
    → (b : MergeRequest) × (lookup k (finish_merge c id ok).state.requests ≡ some b) × Moves a b
unfolding finish_merge
finish-Moves c id k r a true e g p =
    let (b, at, moves) =
      goes-insert id k r a (record r { status = "completed"; result = "merged successfully" })
        c.requests e g (completes p refl) in
    (b, ground arith, moves)
finish-Moves c id k r a false e g p =
    let (b, at, moves) =
      goes-insert id k r a (record r { status = "failed"; result = "merge conflict or error" })
        c.requests e g (fails p refl) in
    (b, ground arith, moves)

abbrev After : Threads → Call → String → MergeRequest → Type 0
After s c k a = (b : MergeRequest) × (lookup k (step s c).coordinator.requests ≡ some b) × Moves a b

step-Moves :
    (s : Threads) (c : Call) (k : String) (a : MergeRequest)
    → Inv s
    → IsFresh s c
    → lookup k s.coordinator.requests ≡ some a
    → After s c k a
unfolding step request_merge approve_merge reject_merge on_change
step-Moves s (request uuid source target requester strategy) k a inv fresh e =
    (a, lookup-insert uuid k _ s.coordinator.requests ∙ ground arith, stays refl)
step-Moves s (approve id reviewer) k a inv fresh e =
    elim (Option-cases (lookup id s.coordinator.requests)) [
      | inl g ↦ (a, ground arith, stays refl)
      | inr (r, g) ↦ elim (Bool-cases (r.status == "pending")) [
        | inl p ↦
            let (b, at, moves) =
              goes-insert id k r a (record r { status = "approved"; review = reviewer })
                s.coordinator.requests e g (approves (ground arith) refl) in
            (b, ground arith, moves)
        | inr p ↦ (a, ground arith, stays refl)
      ]
    ]
step-Moves s (reject id reviewer reason) k a inv fresh e =
    elim (Option-cases (lookup id s.coordinator.requests)) [
      | inl g ↦ (a, ground arith, stays refl)
      | inr (r, g) ↦ elim (Bool-cases (r.status == "pending")) [
        | inl p ↦
            let (b, at, moves) =
              goes-insert id k r a
                (record r { status = "rejected"; review = reviewer; result = reason })
                s.coordinator.requests e g (rejects (ground arith) refl) in
            (b, ground arith, moves)
        | inr p ↦ (a, ground arith, stays refl)
      ]
    ]
step-Moves s (begin id) k a inv fresh e = elim (Option-cases (begin_merge s.coordinator id)) [
  | inl g ↦ (a, ground arith, stays refl)
  | inr (r, g) ↦ (a, ground arith, stays refl)
]
step-Moves s (finish id ok) k a inv fresh e = elim (Bool-cases (contains s.executing id)) [
  | inl there ↦
      let (r, g, was) = inv id (In-of_contains s.executing id there) in
      let (b, at, moves) = finish-Moves s.coordinator id k r a ok e g was in
      (b, ground arith, moves)
  | inr gone ↦ (a, ground arith, stays refl)
]
step-Moves s listen k a inv fresh e = (a, e, stays refl)

pending-not_approved : (status : String) → status ≡ "pending" → ¬ WasApproved status
unfolding String_discrete
pending-not_approved status e (inl h) = text_ne "pending" "approved" refl (sym e ∙ h)
pending-not_approved status e (inr (inl h)) = text_ne "pending" "completed" refl (sym e ∙ h)
pending-not_approved status e (inr (inr h)) = text_ne "pending" "failed" refl (sym e ∙ h)

WasApproved-Moves : (a b : MergeRequest) → WasApproved a.status → Moves a b → WasApproved b.status
WasApproved-Moves a b was (stays e) = subst (λ r. WasApproved r.status) e was
WasApproved-Moves a b was (approves e f) = absurd (pending-not_approved a.status e was)
WasApproved-Moves a b was (rejects e f) = absurd (pending-not_approved a.status e was)
WasApproved-Moves a b was (completes h e) = inr (inl e)
WasApproved-Moves a b was (fails h e) = inr (inr e)

-- What is being executed after a call was being executed before, or has just been found approved.
executing-step :
    (s : Threads) (c : Call) (id : String)
    → In id (step s c).executing
    → In id s.executing
      ⊎ ((r : MergeRequest) × (lookup id (step s c).coordinator.requests ≡ some r)
          × WasApproved r.status)
unfolding step
executing-step s (begin merge_id) id h = elim (Option-cases (begin_merge s.coordinator merge_id)) [
  | inl g ↦ inl (ground arith)
  | inr (r, g) ↦
      let read = begin_merge-lookup s.coordinator merge_id r g in
      let was = begin_merge-approved s.coordinator merge_id r g in
      let cases : (id ≡ merge_id) ⊎ In id s.executing = ground arith in
      elim cases [ inl same ↦ inr (r, ground (arith, read), inl was) | inr old ↦ inl old ]
]
executing-step s (finish merge_id ok) id h = elim (Bool-cases (contains s.executing merge_id)) [
  | inl there ↦ inl (In-without id merge_id s.executing (ground arith))
  | inr gone ↦ inl (ground arith)
]
executing-step s c id h = inl h

step-Inv : (s : Threads) (c : Call) → Inv s → IsFresh s c → Inv (step s c)
step-Inv s c inv fresh id h = elim (executing-step s c id h) [
  | inl old ↦
      let (r, g, was) = inv id old in
      let (b, at, moves) = step-Moves s c id r inv fresh g in
      (b, at, WasApproved-Moves r b was moves)
  | inr new ↦ new
]

run-Inv : (s : Threads) (cs : List Call) → Inv s → AllFresh s cs → Inv (run s cs)
run-Inv s [] inv fresh = inv
run-Inv s (c ∷ cs) inv fresh = run-Inv (step s c) cs (step-Inv s c inv fresh.0) fresh.1

-- After any calls, with any interleaving of executions, from a table that no thread is executing a
-- request of, where each new request has a new id: a request that is stored is stored after one more
-- call, and it is unchanged; or its status went from pending to approved or rejected; or it was
-- approved, completed or failed and became completed or failed.
pub run-Moves :
    (c : MergeCoordinator) (cs : List Call) (next : Call) (k : String) (a : MergeRequest)
    → let start : Threads = record { coordinator = c; executing = [] } in
      AllFresh start cs
      → IsFresh (run start cs) next
      → lookup k (run start cs).coordinator.requests ≡ some a
      → (b : MergeRequest) × (lookup k (step (run start cs) next).coordinator.requests ≡ some b)
        × Moves a b
run-Moves c cs next k a all_fresh fresh e =
    let start : Threads = record { coordinator = c; executing = [] } in
    step-Moves (run start cs) next k a (run-Inv start cs (λ id h. absurd h) all_fresh) fresh e
