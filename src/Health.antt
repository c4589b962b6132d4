-- ===== src/Health.antt =====
-- pkg/controller/health: the analysis of the OSDs against the spec of the CephCluster.
pub mod Osds
pub mod Analysis
pub mod Node
pub mod Threads
pub mod Status
pub mod Refusal
pub mod Samples
