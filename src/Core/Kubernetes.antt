-- ===== src/Core/Kubernetes.antt =====
-- v2/apiserver/internal/core/kubernetes: the substrate, which runs workers and jobs on Kubernetes.
pub mod Objects
pub mod WorkerPods
pub mod JobPods
pub mod Substrate
pub mod Mounts
pub mod Environments
pub mod Permitted
pub mod SecretsStore
pub mod LogsStore
