-- ===== src/Api.antt =====
-- internal/api/server.go: the HTTP handlers, over the store and the queue. A handler is a function
-- from the tables to the tables, the reply and what it put on the queue.
pub mod Http
pub mod Submit
pub mod Handoff
pub mod Accepted
pub mod Runnable
pub mod Jobs
pub mod Settling
pub mod Requeuing
pub mod Auth
pub mod Ops
pub mod Routes
pub mod Guard
mod Samples
