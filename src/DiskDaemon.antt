-- ===== src/DiskDaemon.antt =====
-- pkg/disk-daemon: the reports on the disks and the OSDs of a node.
pub mod Equal
pub mod Devices
pub mod Volumes
pub mod Osds
pub mod Report
pub mod Mapping
pub mod Pass
pub mod Samples
