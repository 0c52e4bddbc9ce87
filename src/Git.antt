-- ===== src/Git.antt =====
-- src/git/branch_manager.cpp, src/git/merge_coordinator.cpp and their headers.
pub mod Commands
pub mod Tokens
pub mod Output
pub mod Operations
pub mod Reading
pub mod Branches
pub mod BranchLaws
pub mod AutoMerge
pub mod Merges
pub mod Approval
pub mod Threads
pub mod Plan
pub mod Examples
pub mod ExamplesOperations
