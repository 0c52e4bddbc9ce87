-- ===== src/Events.antt =====
-- src/workspace/event_bus.cpp and its header.
pub mod Bus
pub mod Log
pub mod Handlers
pub mod Examples
