-- ===== src/Authx.antt =====
-- v2/apiserver/internal/authx: principals and roles, users, service accounts and sessions.
pub mod Roles
pub mod Principals
pub mod Interfaces
pub mod Docs
pub mod Mongo
pub mod Services
pub mod Locked
pub mod Rest
