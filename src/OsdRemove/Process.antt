-- ===== src/OsdRemove/Process.antt =====
-- `processOsdRemoveTask` of executor.go.
pub mod Collect
pub mod Finished
pub mod Pass
pub mod Plan
pub mod Reported
pub mod Count
pub mod Turns
pub mod Buckets
pub mod Exclusive
pub mod Results
pub mod Progress
pub mod Completion
pub mod Faithful
