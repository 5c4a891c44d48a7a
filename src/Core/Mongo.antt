-- ===== src/Core/Mongo.antt =====
-- v2/apiserver/internal/core/mongodb: the stores of events, workers, jobs and projects.
pub mod EventDocs
pub mod EventsStore
pub mod WorkersStore
pub mod ProjectDocs
pub mod ProjectsStore
pub mod LogsStore
