-- ===== src/Authx/Rest.antt =====
-- v2/apiserver/internal/authx/rest and v2/apiserver/internal/system/rest: the endpoints.
pub mod Accounts
pub mod Sessions
pub mod Limits
pub mod Scopes
