-- ===== src/OsdRemove.antt =====
-- pkg/controller/osdremove-task
pub mod Config
pub mod Phase
pub mod Steps
pub mod Outcomes
pub mod Rebalance
pub mod Jobs
pub mod Process
pub mod Processer
pub mod Controller
pub mod Spec
pub mod Samples
