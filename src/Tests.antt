-- ===== src/Tests.antt =====
-- Concrete data for the theorems, and what these say of it.
mod Memory
mod Samples
mod Store
mod Writes
mod Requests
mod Pods
mod Retries
mod Kubernetes
mod Queues
mod Accounts
mod Loops
mod Services
mod Creation
mod Secrets
mod Logs
mod Endpoints
mod Subscribers
mod Roles
mod Sessions
mod Replica
mod Broker
mod Listing
