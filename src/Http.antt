-- ===== src/Http.antt =====
-- src/http/handler.cpp and include/mcp_collab/transport_http.hpp.
pub mod RateLimiter
pub mod Window
pub mod Sse
pub mod Transport
pub mod Post
pub mod Stream
pub mod Queues
pub mod Identity
pub mod Guarded
pub mod Examples
pub mod ExamplesPost
