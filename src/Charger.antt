-- ===== src/Charger.antt =====
-- The charger interface of src/sdk/charger.ts that the core works against: the connector states, and
-- the live status that a charger pushes. Currents are in mA, powers in mW, energies in mWh.
use open_smart_charge.Base.{ℕ, Bool, Option}

pub data Connector : Type 0 where
  available preparing charging suspended_ev suspended_evse : Connector
  finishing reserved unavailable faulted : Connector

pub record ChargerStatus : Type 0 where
  pub status : Connector
  pub connected : Bool
  pub charging : Bool
  pub current_a : Option ℕ
  pub power_w : Option ℕ
  pub session_energy : Option ℕ
