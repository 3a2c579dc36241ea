-- ===== src/Queue.antt =====
-- internal/queue/queue.go: the Redis layer.
pub mod Redis
pub mod Fetch
pub mod Depths
pub mod Keyspace
pub mod Delayed
pub mod Moves
pub mod Promotion
pub mod Early
pub mod Leader
pub mod Reap
pub mod FetchBounds
mod Samples
mod KeyspaceSamples
