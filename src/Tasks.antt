-- ===== src/Tasks.antt =====
-- src/workspace/task_manager.cpp and its header.
pub mod Task
pub mod Search
pub mod Manager
pub mod Acyclic
pub mod History
pub mod Stores
pub mod Queries
pub mod Ready
pub mod Effects
pub mod Frame
pub mod Codec
pub mod Examples
