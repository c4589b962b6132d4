-- ===== src/Config.antt =====
-- pkg/controller/config: the parameters of the controllers, read from a config map.
pub mod Params
pub mod Values
pub mod Read
pub mod Store
pub mod Samples
