-- ===== src/Ocpp/Status.antt =====
-- src/modules/charger-ocpp16/status.ts.
use open_smart_charge.Base.{ℕ, Bool, true, false, ◌&&◌, not, ◌==◌, leb, if◌then◌else◌}
use open_smart_charge.Charger.{
  Connector, available, preparing, charging, suspended_ev, suspended_evse, unavailable, faulted,
}
use open_smart_charge.Health.{Health, ok, degraded}

-- `charging` and `connected`.
unfoldable pub compute_connection_state : Connector → Bool × Bool
compute_connection_state charging = (true, true)
compute_connection_state suspended_ev = (true, true)
compute_connection_state suspended_evse = (true, true)
compute_connection_state available = (false, false)
compute_connection_state unavailable = (false, false)
compute_connection_state faulted = (false, false)
compute_connection_state _ = (false, true)

abbrev is_preparing : Connector → Bool
is_preparing preparing = true
is_preparing _ = false

unfoldable pub should_auto_start_transaction : Connector → Bool → Bool → Bool → Bool
should_auto_start_transaction status has_active enabled already =
    is_preparing status && (not has_active && (enabled && not already))

unfoldable pub compute_health : ℕ → ℕ → Health
compute_health registered connected =
    if registered == 0
    then ok
    else if connected == 0
    then Health.unavailable
    else if leb registered connected
    then ok
    else degraded
