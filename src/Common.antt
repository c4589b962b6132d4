-- ===== src/Common.antt =====
-- pkg/common: what the controllers share.
pub mod Objects
pub mod Disks
pub mod Tree
pub mod Version
pub mod World
pub mod Retry
