-- ===== src/Core/Rest.antt =====
-- v2/apiserver/internal/core/rest: the endpoints, in front of the services.
pub mod Events
pub mod Workers
pub mod Projects
