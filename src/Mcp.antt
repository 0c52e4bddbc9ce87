-- ===== src/Mcp.antt =====
-- src/mcp/protocol.cpp and its header.
pub mod Json
pub mod Values
pub mod Request
pub mod Listing
pub mod Protocol
pub mod Calls
pub mod Serve
pub mod Pages
pub mod Lists
pub mod Client
pub mod Access
pub mod History
pub mod Replies
pub mod Uninitialized
pub mod Examples
