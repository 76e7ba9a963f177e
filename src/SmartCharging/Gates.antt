-- ===== src/SmartCharging/Gates.antt =====
-- The three gates of src/core/smart-charging/decide.ts and the poll gate of vehicle-poll.ts. Currents
-- are in mA, states of charge in any unit of a linear order, times in ms.
use open_smart_charge.Base.{
  ℕ, ◌+◌, Bool, true, false, ◌||◌, ◌&&◌, Option, none, some, leb, ltb, is_true, if◌then◌else◌,
}

-- `Math.abs(candidate - last) >= deadband`
unfoldable pub should_write : ℕ → Option ℕ → ℕ → Bool
should_write candidate none deadband = true
should_write candidate (some last) deadband =
    leb (last + deadband) candidate || leb (candidate + deadband) last

unfoldable pub force_min_soc : Option ℕ → Option ℕ → Bool
force_min_soc (some soc) (some min_soc) = ltb soc min_soc
force_min_soc _ _ = false

unfoldable pub force_climate : Option Bool → Bool → Bool
force_climate climate_active connected = is_true climate_active && connected

pub record PollInput : Type 0 where
  pub now : ℕ
  pub connected : Bool
  pub drawing : Bool
  pub last_poll_at : ℕ
  pub charging_interval : ℕ
  pub idle_interval : ℕ
  pub polled_this_connection : Bool

unfoldable pub should_poll_vehicle : PollInput → Bool
should_poll_vehicle i =
    if i.connected
    then (if i.polled_this_connection
        then leb (i.last_poll_at + (if i.drawing then i.charging_interval else i.idle_interval))
            i.now
        else true)
    else false
