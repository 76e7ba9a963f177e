-- ===== src/Lifecycle/Site.antt =====
-- The state that src/core/lifecycle.ts keeps across ticks, with the listener of `wireChargerStatus` and
-- the handlers of the control surface. A handler answers with the circuit that it ticks, if any; the
-- events for the interface are left out. Energies of a session are in mWh, as the charger reports them; where they
-- meet a state of charge or a target, they are read in whole Wh.
pub mod Agreement
use open_smart_charge.Base.{
  ℕ, ◌/◌, Bool, true, false, Option, none, some, String, List, [], ◌∷◌, is_some, if◌then◌else◌,
  get_or_else,
}
use open_smart_charge.Base.Dict.{Dict, get, put, remove, update}
use open_smart_charge.Balancer.{Mode, smart}
use open_smart_charge.Charger.{Connector, ChargerStatus, available}
use open_smart_charge.ControlLoop.{Circuit, circuit_for_loadpoint}
use open_smart_charge.Loadpoint.{
  LoadpointState, DbRow, TargetPatch, fold_charger_status, coalesce, changed, set_loadpoint_mode,
  set_loadpoint_target, set_loadpoint_vehicle_override,
}
use open_smart_charge.Planner.{PlannedSlot}
use open_smart_charge.SmartCharging.Energy.{Anchor}
use open_smart_charge.Lifecycle.{Control}

abbrev pub wh : ℕ → ℕ
wh n = n / 1000

-- `LoadpointState` with the fields that the ticks derive.
pub record Runtime : Type 0 where
  pub state : LoadpointState
  pub active_vehicle : Option String
  pub delivered : ℕ
  pub planned_slots : List PlannedSlot
  pub plan_ready_by : Option ℕ

-- An entry of `vehiclePollState`.
pub record PollState : Type 0 where
  pub last_poll_at : ℕ
  pub polled_this_connection : Bool
  pub consecutive_failures : ℕ

pub record Site : Type 0 where
  pub states : Dict Runtime
  pub db : Dict DbRow
  pub available_since : Dict ℕ
  pub vehicle_anchor : Dict Anchor
  pub session_first_reading : Dict Anchor
  pub vehicle_poll : Dict PollState
  pub control : Control

abbrev pub is_available : Connector → Bool
is_available available = true
is_available _ = false

-- The time since which the connector is free.
unfoldable pub note_available : Dict ℕ → String → Connector → ℕ → Dict ℕ
note_available since name status now =
    if is_available status
    then (if is_some (get since name) then since else put since name now)
    else remove since name

abbrev pub folded : ChargerStatus → Runtime → Runtime
folded status r = record r {
  state = record r.state { live = fold_charger_status r.state.live status };
}

-- The listener that `wireChargerStatus` gives to a charger.
unfoldable pub charger_status : Site → String → ChargerStatus → ℕ → Site
charger_status site name status now = record site {
  states = update site.states name (folded status);
  available_since = note_available site.available_since name status.status now;
}

abbrev pub with_mode : Mode → Runtime → Runtime
with_mode mode r = record r { state = record r.state { mode = mode } }

abbrev pub with_override : Option String → Runtime → Runtime
with_override o r = record r { state = record r.state { vehicle_override = o } }

abbrev pub with_target : TargetPatch → Runtime → Runtime
with_target p r = record r {
  state = record r.state {
    target_soc = coalesce p.target_soc r.state.target_soc;
    target_time = coalesce p.target_time r.state.target_time;
    target_kwh = changed p.target_kwh r.state.target_kwh;
    min_soc = coalesce p.min_soc r.state.min_soc;
  };
}

-- `state.mode = mode` and `setLoadpointMode`.
unfoldable pub save_mode : Site → String → Mode → Site
save_mode site name mode = record site {
  states = update site.states name (with_mode mode);
  db = set_loadpoint_mode site.db name mode;
}

unfoldable pub save_override : Site → String → Option String → Site
save_override site name o = record site {
  states = update site.states name (with_override o);
  db = set_loadpoint_vehicle_override site.db name o;
}

unfoldable pub save_target : Site → String → TargetPatch → Site
save_target site name p = record site {
  states = update site.states name (with_target p);
  db = set_loadpoint_target site.db name p;
}

-- A handler leaves an unknown loadpoint alone.
abbrev pub if_known : Site → List Circuit → String → Site → Site × Option Circuit
if_known site circuits name site' =
    if is_some (get site.states name)
    then (site', circuit_for_loadpoint circuits name)
    else (site, none)

unfoldable pub handle_mode_change : Site → List Circuit → String → Mode → Site × Option Circuit
handle_mode_change site circuits name mode = if_known site circuits name (save_mode site name mode)

unfoldable pub handle_target_change :
    Site → List Circuit → String → TargetPatch → Site × Option Circuit
handle_target_change site circuits name p = if_known site circuits name (save_target site name p)

unfoldable pub handle_vehicle_override :
    Site → List Circuit → String → Option String → Site × Option Circuit
handle_vehicle_override site circuits name o =
    if_known site circuits name (save_override site name o)

-- The plans themselves are in their table; a change of them only ticks the circuit.
unfoldable pub handle_plans_changed : Site → List Circuit → String → Site × Option Circuit
handle_plans_changed site circuits name = (site, circuit_for_loadpoint circuits name)
