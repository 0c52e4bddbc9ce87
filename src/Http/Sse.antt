-- ===== src/Http/Sse.antt =====
-- `SseStream`, and the queue that `handle_get` makes for each client. A generated UUID is an
-- argument.
use Prim.Native.String.{◌++◌}
use swarm_mcp.Prelude.{
  ℕ, String, Bool, true, false, List, [], ◌∷◌, ◌++◌ as ◌⧺◌, leb, if◌then◌else◌, length,
}
use swarm_mcp.Dict.{Dict, insert, erase}

-- The queue between `broadcast` and the thread that writes to the client.
pub record SseClient : Type 0 where
  pub queue : List String
  pub disconnected : Bool

unfoldable pub pop_front : List String → List String
pop_front [] = []
pop_front (x ∷ xs) = xs

abbrev front : List String → String
front [] = ""
front (x ∷ xs) = x

unfoldable pub max_sse_queue_entries : ℕ
max_sse_queue_entries = 1024

-- The sink of a client: false if the client is gone, or the message is queued, in place of the
-- oldest one if the queue is full.
unfoldable pub sink : SseClient → String → Bool × SseClient
unfolding max_sse_queue_entries pop_front
sink c message =
    if c.disconnected
    then (false, c)
    else let queue =
        if leb max_sse_queue_entries (length c.queue) then pop_front c.queue else c.queue in
      (true, record c { queue = queue ⧺ message ∷ [] })

abbrev pub SseStream : Type 0
SseStream = Dict SseClient

unfoldable pub add_client : SseStream → (uuid : String) → SseClient → SseStream
add_client clients uuid client = insert uuid client clients

unfoldable pub remove_client : SseStream → String → SseStream
remove_client clients id = erase id clients

-- std::format("event: message\ndata: {}\n\n", notification.dump())
unfoldable pub sse_event : String → String
sse_event dumped = "event: message\ndata: " ++ (dumped ++ "\n\n")

-- The loop of `broadcast`.
unfoldable pub broadcast_loop : SseStream → (event : String) → SseStream
unfolding sink
broadcast_loop [] event = []
broadcast_loop ((id, client) ∷ clients) event =
    let rest = broadcast_loop clients event in
    let (kept, client') = sink client event in if kept then (id, client') ∷ rest else rest

unfoldable pub client_count : SseStream → ℕ
client_count clients = length clients

-- What the thread that writes takes off the queue: the oldest message, if there is one.
unfoldable pub take_message : SseClient → String × SseClient
unfolding pop_front
take_message c = (front c.queue, record c { queue = pop_front c.queue })

-- The client's connection is over.
unfoldable pub disconnect : SseClient → SseClient
disconnect c = record c { disconnected = true }
