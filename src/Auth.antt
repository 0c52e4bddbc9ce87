-- ===== src/Auth.antt =====
-- src/util/auth.cpp and its header.
pub mod Role
pub mod Token
pub mod Provider
pub mod Validity
pub mod History
pub mod Genuine
pub mod Examples
