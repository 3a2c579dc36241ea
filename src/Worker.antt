-- ===== src/Worker.antt =====
-- internal/worker: the runner of one delivery and the pool that runs many.
pub mod Runner
pub mod Routing
pub mod EndToEnd
pub mod Pool
pub mod Heartbeat
pub mod PoolBounds
pub mod Draining
pub mod Shutdown
pub mod Stopping
pub mod Phases
pub mod Keeping
pub mod Assembly
pub mod ShutdownEnd
pub mod ShutdownRecords
pub mod ShutdownStuck
pub mod ShutdownBound
mod PoolSamples
mod ShutdownSamples
mod HeartbeatSamples
mod Samples
