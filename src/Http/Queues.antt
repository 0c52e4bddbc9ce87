-- ===== src/Http/Queues.antt =====
-- How long the queues of the streams get.
use swarm_mcp.Prelude.{
  ◌-◌, ◌≤◌, String, String_discrete, ◌≡◌, refl, inl, inr, false, none, some, List, [], ◌∷◌, ◌++◌,
  length, arith, Option-cases, suc, both_branches, subst,
}
use std.Option.{some-injective}
use swarm_mcp.Dict.{lookup, insert, erase}
use swarm_mcp.Http.Sse.{
  SseClient, SseStream, sink, pop_front, max_sse_queue_entries, add_client, remove_client,
  broadcast_loop, take_message, disconnect,
}

-- Each client's queue is within the bound.
abbrev pub Fits : SseStream → Type 0
Fits [] = Unit
Fits ((id, client) ∷ clients) = (length client.queue ≤ 1024) × Fits clients

length-snoc : (q : List String) (x : String) → length (q ++ x ∷ []) ≡ suc (length q)
length-snoc [] x = refl
length-snoc (y ∷ q) x = ground (arith, length-snoc q x)

length-pop_front : (q : List String) → length (pop_front q) ≡ length q - 1
unfolding pop_front
length-pop_front [] = ground arith
length-pop_front (y ∷ q) = ground arith

sink-fits :
    (c : SseClient) (event : String) → length c.queue ≤ 1024 → length (sink c event).1.queue ≤ 1024
unfolding sink max_sse_queue_entries
sink-fits c event h = ground (
  arith,
  length-snoc c.queue event,
  length-snoc (pop_front c.queue) event,
  length-pop_front c.queue,
)

broadcast_loop-Fits : (s : SseStream) (event : String) → Fits s → Fits (broadcast_loop s event)
unfolding broadcast_loop
broadcast_loop-Fits [] event h = tt
broadcast_loop-Fits ((id, client) ∷ clients) event h =
    let rest = broadcast_loop-Fits clients event h.1 in
    both_branches Fits (sink client event).0 _ _ (sink-fits client event h.0, rest) rest

insert-Fits :
    (k : String) (c : SseClient) (s : SseStream)
    → length c.queue ≤ 1024
    → Fits s
    → Fits (insert k c s)
unfolding insert
insert-Fits k c [] h f = (h, tt)
insert-Fits k c ((j, d) ∷ s) h f =
    let rest = insert-Fits k c s h f.1 in
    elim (String_discrete j k) [ yes hit ↦ ground (arith, rest) | no miss ↦ ground (arith, rest) ]

erase-Fits : (k : String) (s : SseStream) → Fits s → Fits (erase k s)
unfolding erase
erase-Fits k [] f = tt
erase-Fits k ((j, d) ∷ s) f =
    let rest = erase-Fits k s f.1 in
    elim (String_discrete j k) [ yes hit ↦ ground (arith, rest) | no miss ↦ ground (arith, rest) ]

lookup-Fits :
    (k : String) (c : SseClient) (s : SseStream)
    → lookup k s ≡ some c
    → Fits s
    → length c.queue ≤ 1024
unfolding lookup
lookup-Fits k c [] e f = cc
lookup-Fits k c ((j, d) ∷ s) e f = elim (String_discrete j k) [
  | yes hit ↦
      let same : d ≡ c = some-injective {a = d} {b = c} (ground arith) in
      subst (λ x. length x.queue ≤ 1024) same f.0
  | no miss ↦ lookup-Fits k c s (ground arith) f.1
]

take_message-fits : (c : SseClient) → length c.queue ≤ 1024 → length (take_message c).1.queue ≤ 1024
unfolding take_message
take_message-fits c h = ground (arith, length-pop_front c.queue)

-- What happens to the streams: a client comes or goes, an event is sent to all, a message is taken
-- off a client's queue to be written, or a client's connection ends.
pub data Call : Type 0 where
  comes goes sends takes ends : String → Call

-- A change of one client, if it is there.
abbrev change : (SseClient → SseClient) → String → SseStream → SseStream
change f id s = elim (lookup id s) [ none ↦ s | some c ↦ insert id (f c) s ]

abbrev pub step : Call → SseStream → SseStream
step (comes id) s = add_client s id (record { queue = []; disconnected = false })
step (goes id) s = remove_client s id
step (sends event) s = broadcast_loop s event
step (takes id) s = change (λ c. (take_message c).1) id s
step (ends id) s = change disconnect id s

abbrev pub run : List Call → SseStream → SseStream
run [] s = s
run (c ∷ cs) s = run cs (step c s)

change-Fits :
    (f : SseClient → SseClient) (id : String) (s : SseStream)
    → ((c : SseClient) → length c.queue ≤ 1024 → length (f c).queue ≤ 1024)
    → Fits s
    → Fits (change f id s)
change-Fits f id s keeps h = elim (Option-cases (lookup id s)) [
  | inl missing ↦ subst Fits (ground arith) h
  | inr (c, e) ↦
      subst Fits (ground arith) (insert-Fits id (f c) s (keeps c (lookup-Fits id c s e h)) h)
]

step-Fits : (c : Call) (s : SseStream) → Fits s → Fits (step c s)
unfolding add_client remove_client disconnect
step-Fits (comes id) s h =
    insert-Fits id (record { queue = []; disconnected = false }) s (omega arith) h
step-Fits (goes id) s h = erase-Fits id s h
step-Fits (sends event) s h = broadcast_loop-Fits s event h
step-Fits (takes id) s h = change-Fits (λ c. (take_message c).1) id s take_message-fits h
step-Fits (ends id) s h = change-Fits disconnect id s (λ c l. l) h

run-Fits : (cs : List Call) (s : SseStream) → Fits s → Fits (run cs s)
run-Fits [] s h = h
run-Fits (c ∷ cs) s h = run-Fits cs (step c s) (step-Fits c s h)

-- Whatever clients come and go, whatever is sent, and however slowly the clients read, no client's
-- queue is ever longer than 1024 messages.
pub run-bounded :
    (cs : List Call) (id : String) (c : SseClient)
    → lookup id (run cs []) ≡ some c
    → length c.queue ≤ 1024
run-bounded cs id c e = lookup-Fits id c (run cs []) e (run-Fits cs [] tt)
