-- ===== src/Lib.antt =====
-- swarm-mcp: a model of the collaboration server for swarms of coding agents.
--
-- The server keeps tasks, agents, branches, merge requests, a shared context and a log of events,
-- each in a table of its own that a mutex guards. An MCP client reaches them over stdio or HTTP
-- with a token; changes are announced by callbacks and over MQTT in signed envelopes. The model has
-- these parts, each a folder of modules:
--
--   Tasks    src/workspace/task_manager.cpp: the table of tasks (Tasks/Manager), the search for cycles
--            (Tasks/Search), the queries (Tasks/Queries) and the JSON form (Tasks/Codec).
--   Agents   src/workspace/agent_registry.cpp: the registry (Agents/Registry) and what stands in it
--            (Agents/Agent).
--   Auth     src/util/auth.cpp, include/mcp_collab/auth.hpp: roles and permissions (Auth/Role), the
--            texts of tokens (Auth/Token), and the provider that issues, checks, revokes and refreshes
--            them (Auth/Provider).
--   Git      src/git/branch_manager.cpp (Git/Branches) and src/git/merge_coordinator.cpp (Git/Merges),
--            over the commands that they ask for (Git/Commands); src/git/operations.cpp: the arguments of
--            the commands and their results (Git/Operations), what git prints (Git/Output), and command
--            lines (Git/Tokens).
--   Mqtt     src/mqtt/secure_mqtt.cpp: who may use a topic (Mqtt/Acl), the filters of topics
--            (Mqtt/Topics), signed envelopes (Mqtt/Envelope), and what becomes of a message
--            (Mqtt/Client). src/mqtt/client.cpp: the subscriptions of a client (Mqtt/Subscriptions).
--            src/mqtt/channel.cpp: channels and their table (Mqtt/Channels).
--   Http     src/http/handler.cpp: the rate limiter (Http/RateLimiter), what is asked of a request
--            (Http/Transport), POST (Http/Post), GET and DELETE (Http/Stream), and the streams of
--            notifications (Http/Sse).
--   Mcp      src/mcp/protocol.cpp: requests and answers (Mcp/Request), lists (Mcp/Listing), the tables
--            (Mcp/Protocol), the calls of handlers (Mcp/Calls), and the dispatch (Mcp/Serve).
--   Tools    src/mcp/tools.cpp: the tools for tasks, their handlers (Tools/Tasks) and
--            their registration with the protocol (Tools/Register).
--   Events   src/workspace/event_bus.cpp (Events/Bus).
--   Context  src/workspace/context_store.cpp (Context/Store).
--
-- Functions, types and fields have the names of the source. Shared modules: Prelude (the names of
-- the library, text equality, list functions), Dict (std::unordered_map as an association list),
-- Text (texts as lists of codes), Json (the JSON library as an interface, with an instance that
-- shows that it can be met).
--
-- A method becomes a function from the state and the arguments to an `Effect`: the new state, what
-- it returns, and the calls of the callback, in order. A method holds its mutex from its first look
-- at the table to its last change, so a call is one step, and any interleaving of threads is a
-- sequence of calls. `execute_merge` lets go of it, and is two steps (Git/Merges): what other
-- threads do between them is an argument of it, and Git/Threads has the steps of any number of
-- executions and other calls in any order. `refresh_token` and `auto_merge_completed_tasks` take it
-- anew for each call that they make; they are one step here, so what another thread does between
-- these calls is not covered. The callback is called after the mutex is let go; one that is
-- registered is taken to be callable, except with the task manager, which may also be given an
-- empty one. A sequence of calls is a list of a type `Call`, run from some table.
--
-- Points in time are numbers of nanoseconds since the epoch, and not negative. The time of an MQTT
-- envelope is in milliseconds, and may be negative where it is read from a message. The clock and
-- generated UUIDs are arguments of the functions that ask for them.
--
-- Loops are recursion on the list that they go over. The search for cycles runs on fuel, one more
-- than the number of dependencies in the table, which is enough: each round that does not end it
-- takes one name off the stack, and a name's dependencies are pushed only once. The digits of a
-- number have one round more than the number, and each round divides it by ten.
--
-- Not modelled: the JSON library, HMAC (OpenSSL), the git program and the MQTT client library are
-- parameters, with hypotheses where a theorem needs them; logging is left out. A time that is read
-- from a stored task is not negative; other JSON numbers have their sign. Version counters and sums
-- of times are not bounded by the width of their types, unless a theorem says so. Texts are valid
-- Unicode, so printing a JSON value does not throw. A registered handler works on a state that is a
-- parameter (`W`), and does not call the protocol again. Routes, threads and sockets of the HTTP
-- transport are not modelled, nor are the configuration, the keychain, the persistence, the tools
-- other than those for tasks, the resources and prompts, the wiring of the server, and the JSON
-- forms of agents, branches, merge requests, events and context entries, apart from what a
-- registration reads.
mod Prelude
pub mod Dict
pub mod Text
pub mod Tools
pub mod Int
pub mod Json
pub mod Mcp
pub mod Tasks
pub mod Auth
pub mod Agents
pub mod Git
pub mod Mqtt
pub mod Http
pub mod Events
pub mod Context
