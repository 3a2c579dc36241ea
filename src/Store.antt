-- ===== src/Store.antt =====
-- internal/store: the Postgres layer. A row of `jobs` and the statements that change one row, the
-- tables, and the recorders.
pub mod Row
pub mod Lifecycle
pub mod Fence
pub mod Budget
pub mod Db
pub mod Queries
pub mod Submit
pub mod Tables
pub mod Workers
pub mod Migrate
pub mod Migrated
pub mod Reports
pub mod Idempotency
pub mod Recorder
pub mod Flush
pub mod FlushOrder
pub mod Quiet
pub mod Quieting
pub mod FlushRetry
pub mod Batcher
pub mod BatcherOrder
pub mod BatcherBounds
mod BatcherSamples
mod MigrateSamples
mod Samples
