-- ===== src/Lifecycle/Fixtures.antt =====
-- A site of one garage, for the tests of the lifecycle.
use open_smart_charge.Base.{true, false, none, some, [], ◌∷◌}
use open_smart_charge.Balancer.{fast}
use open_smart_charge.Charger.{ChargerStatus, available}
use open_smart_charge.Loadpoint.{at_rest}
use open_smart_charge.Lifecycle.Site.{Site, Runtime}
use open_smart_charge.Lifecycle.Site.Agreement.{row_of_state}
use open_smart_charge.Lifecycle.Prepare.{PollSettings}

-- A garage in a fast boost whose car was plugged in.
abbrev pub garage : Runtime
garage = record {
  state = record {
    name = "garage";
    mode = fast;
    target_soc = some 80_000;
    target_time = none;
    target_kwh = none;
    min_soc = some 20_000;
    vehicle_override = none;
    live = record at_rest { connected = true; session_energy = 5_000_000 };
    max_current_a = 16_000;
  };
  active_vehicle = some "skoda";
  delivered = 6_000_000;
  planned_slots = [];
  plan_ready_by = none;
}

abbrev pub site : Site
site = record {
  states = ("garage", garage) ∷ [];
  db = ("garage", row_of_state garage.state) ∷ [];
  available_since = [];
  vehicle_anchor = [];
  session_first_reading = [];
  vehicle_poll = [];
  control = record {
    last_commanded = [];
    session_states = [];
    zero_draw_since = [];
    session_complete = [];
  };
}

abbrev pub frame_of : ChargerStatus
frame_of = record {
  status = available;
  connected = false;
  charging = false;
  current_a = none;
  power_w = none;
  session_energy = none;
}

abbrev pub cadence : PollSettings
cadence = record { poll_interval = 900_000; idle_interval = 600_000; day_start = 6; day_end = 22 }
