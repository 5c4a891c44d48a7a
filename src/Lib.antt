-- ===== src/Lib.antt =====
-- Brigade 2 (v2/): an API server that keeps projects, events, their workers and their jobs in MongoDB
-- and runs them on Kubernetes, a scheduler that starts pending workers and jobs when there is
-- capacity, and an observer that reports what became of their pods.
--
-- A client creates an event. The events service stores it with a pending worker and puts the event's
-- identifier on the project's queue. The scheduler takes the message, reads the event through the
-- API, waits for capacity and asks the API to start the worker, whose pod may create jobs, which go
-- the same way over a second queue. The observer watches the pods and writes the phases back. Users
-- cancel and delete events. Every request passes the token filter, but those that begin a session.
--
-- The files:
--   Base, Errors, Effect: shared definitions, the order of texts, selections from a list; the errors
--     of v2/apiserver/internal/meta; what a Go function does to the world (`M W A`: a value, an error
--     or a panic, and the world afterwards).
--   Mongo: the MongoDB driver, a parameter, and the laws of it that the proofs use.
--   Effect/Results: what a result says of the calls that it comes from.
--   Authx: roles, principals, users, sessions (v2/apiserver/internal/authx). Authx/Docs, Authx/Mongo:
--     the stores of v2/apiserver/internal/authx/mongodb; Authx/Mongo/Pages: what two of them do to
--     read a page. Authx/Services: `usersService`, `serviceAccountsService`, `sessionsService`.
--     Authx/Locked: the lock and the token filter.
--   Core/Types, Core/Interfaces: the data of v2/apiserver/internal/core; the stores, the substrate
--     and the system (clock, identifiers, tokens, hashes) as records of operations.
--   Core/Services: `eventsService`, `workersService`, `jobsService`, `projectsService`.
--   Core/Canceled, Core/Subscribed: services and stores together.
--   Core/Mongo: the stores of v2/apiserver/internal/core/mongodb: their documents, filters and
--     updates, and every operation.
--   Core/Services/Secrets, Logs, ProjectRoles; Core/Kubernetes/SecretsStore, LogsStore;
--     Core/Mongo/LogsStore; Authx/Services/SystemRoles: the secrets and roles of projects, the roles of
--     the system (v2/apiserver/internal/system) and logs, with the stores behind them.
--   Core/Kubernetes: v2/apiserver/internal/core/kubernetes/substrate.go: the objects of Kubernetes,
--     the pods and secrets of workers and jobs, and the operations of the substrate.
--   Rest/TokenAuth: `Decorate` of v2/apiserver/internal/lib/restmachinery/authn/token_auth.go.
--   Rest/Endpoints: `readAndValidateRequestBody` and `ServeRequest` of restmachinery/endpoints.go.
--   Rest/Requests, Core/Rest, Authx/Rest: the handlers of v2/apiserver/internal/core/rest,
--     v2/apiserver/internal/authx/rest and v2/apiserver/internal/system/rest, and what they read of a
--     request.
--   Pods, Scheduler: v2/scheduler (worker_sync.go, job_sync.go, capacity_manager.go, worker_loop.go,
--     job_loop.go, project_loops_manager.go); Scheduler/Loops: what a loop does with one message, and
--     Scheduler/Loops/Runs the whole loop with its readers.
--   Retries: `ManageRetries` of v2/internal/retries/retries.go.
--   Queue: the queue writers of v2/apiserver/internal/lib/queue/amqp and the names of the queues;
--     Queue/Writers: these writers as the queue of the substrate, whose laws they meet.
--   Observer: v2/observer (worker_sync.go, job_sync.go, pod_sync.go).
--   Tests: concrete data.
--
-- How the state corresponds: a store reads and writes a world `W` through a collection of the driver;
-- `docs` says which documents the world holds. `time.Time` is a natural number. A Go map is an
-- association list or a list of keys. The phases of workers and jobs, strings in the source, are data
-- types, with `unset` for the empty string and for a text of a request that is none of them. A
-- nil pointer is `none`; dereferencing one is `panic`.
--
-- What the model leaves out: the text that `errors.Wrap` adds (an error stands for its cause), the
-- value returned beside an error, the texts of messages, logging, contexts and timeouts, encoding to
-- JSON and BSON, negative limits, job names with a dot (keys of a nested document), the memory that a
-- goroutine shares. A goroutine of a handler is an action that is returned with its result. The text
-- equality of the database is exact.
--
-- Fuel: `Create` of the events service takes fuel, for its call of itself: one level for the
-- event without a project and one for each event with a project; and `ManageRetries` takes 256, for
-- each count of its `uint8`. The loops of the scheduler, which are meant to go on for ever, take one
-- unit for each round and for each message, and what is shown of them holds for any fuel, or needs 2
-- where the context is done. A loop over ticks, pods, reports or lines takes the list of those that
-- come.
--
-- Not modelled: the command line, configuration and mains, the wiring of REST routes, the queue
-- readers over AMQP, the clients of AMQP and of Kubernetes, OAuth2 and OpenID Connect: input and
-- output around calls of libraries, and the encoding of labels as BSON. Of a queue reader the loops
-- of the scheduler take that its opening may succeed, fail, panic or go on for ever, and that a read
-- or a close answers or fails. The worker and the logger are not Go.
pub mod Base
pub mod Errors
pub mod Effect
pub mod Mongo
pub mod Authx
pub mod Core
pub mod Rest
pub mod Retries
pub mod Queue
pub mod Pods
pub mod Scheduler
pub mod Observer
pub mod Tests
