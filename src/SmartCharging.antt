-- ===== src/SmartCharging.antt =====
-- src/core/smart-charging/: the pure decisions that each control tick is made of. Each child module is
-- about one file of that folder; `Gates` is about the small tests of two of them.
pub mod Gates
pub mod Current
pub mod Complete
pub mod Guest
pub mod Price
pub mod Rollup
pub mod Energy
mod Tests
