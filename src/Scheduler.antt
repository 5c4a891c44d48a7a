-- ===== src/Scheduler.antt =====
-- v2/scheduler: which pods take capacity, the loops over a project's queues, and the projects that
-- have loops.
pub mod Pods
pub mod Messages
pub mod Loops
pub mod Projects
