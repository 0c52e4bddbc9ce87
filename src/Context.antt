-- ===== src/Context.antt =====
-- src/workspace/context_store.cpp and its header.
pub mod Store
pub mod Versions
pub mod Examples
