-- ===== src/Core.antt =====
-- v2/apiserver/internal/core: the domain model and its services.
pub mod Types
pub mod Mongo
pub mod Interfaces
pub mod Services
pub mod Rest
pub mod Kubernetes
pub mod Canceled
pub mod Subscribed
