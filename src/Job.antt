-- ===== src/Job.antt =====
-- internal/job: the lifecycle, the error taxonomy and the admission of jobs.
pub mod Status
pub mod Transitions
pub mod Errors
pub mod Classify
pub mod ErrorText
pub mod Record
pub mod Admission
mod Samples
