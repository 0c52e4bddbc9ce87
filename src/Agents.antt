-- ===== src/Agents.antt =====
-- src/workspace/agent_registry.cpp and its header.
pub mod Agent
pub mod Registry
pub mod Invariant
pub mod Access
pub mod Pruning
pub mod Registration
pub mod Examples
