-- ===== src/Tools.antt =====
-- src/mcp/tools.cpp: the tools for tasks, their handlers and their registration.
pub mod Tasks
pub mod Soundness
pub mod Register
pub mod Readers
pub mod Examples
