-- ===== src/Ocpp.antt =====
-- src/modules/charger-ocpp16: the OCPP 1.6 chargers.
pub mod Debounce
pub mod Readings
pub mod Transactions
pub mod Status
pub mod Station
