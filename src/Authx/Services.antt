-- ===== src/Authx/Services.antt =====
-- v2/apiserver/internal/authx: the services.
pub mod Users
pub mod ServiceAccounts
pub mod Sessions
pub mod SystemRoles
