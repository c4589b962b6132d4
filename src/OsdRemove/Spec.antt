-- ===== src/OsdRemove/Spec.antt =====
-- spec_handler.go and helpers.go: which OSDs and disks a task is to remove.
pub mod Metadata
pub mod Devices
pub mod Zap
pub mod Hosts
pub mod Report
pub mod Volumes
pub mod Context
pub mod Find
pub mod Discovery
pub mod Complete
pub mod ByOsd
pub mod ByDevice
pub mod Verify
pub mod Plan
