-- ===== src/Core/Services.antt =====
-- The services of v2/apiserver/internal/core.
pub mod Events
pub mod Workers
pub mod Jobs
pub mod Projects
pub mod ProjectRoles
pub mod Secrets
pub mod Logs
