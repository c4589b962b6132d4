-- ===== src/Health/Analysis.antt =====
-- runSpecAnalysis of pkg/controller/health/spec_osd_verification.go.
pub mod Devices
pub mod Usage
pub mod Extra
pub mod Run
