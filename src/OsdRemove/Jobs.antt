-- ===== src/OsdRemove/Jobs.antt =====
-- cleanup_job.go, and `getJobData` and `handleJobRun` of executor.go.
pub mod Build
pub mod Run
pub mod Sharing
pub mod Zapping
pub mod Parallel
