-- ===== src/Control.antt =====
-- internal/control: the hub that keeps one command queue for each connected worker, and the
-- worker's end of the stream.
pub mod Hub
mod Maps
pub mod Events
pub mod Steps
pub mod Sessions
pub mod Client
mod Samples
