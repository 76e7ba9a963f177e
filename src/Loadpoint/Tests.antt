-- ===== src/Loadpoint/Tests.antt =====
-- Loadpoints at concrete inputs.
use open_smart_charge.Base.{◌≡◌, refl, true, none, some, [], ◌∷◌}
use open_smart_charge.Base.Dict.{Dict, get, put, update}
use open_smart_charge.Balancer.{smart, fast}
use open_smart_charge.Charger.{ChargerStatus, charging}
use open_smart_charge.Loadpoint.{
  at_rest, fold_charger_status, DbRow, LoadpointInit, row_of, TargetPatch, leave, clear,
  set_loadpoint_mode, update_row, set_loadpoint_vehicle_override, config_to_loadpoint_inits,
}
use open_smart_charge.Loadpoint.Live.{after}
use open_smart_charge.Loadpoint.Store.{override_in}

abbrev drawing : ChargerStatus
drawing = record {
  status = charging;
  connected = true;
  charging = true;
  current_a = some 10_000;
  power_w = some 6_900;
  session_energy = some 1_200;
}

-- A frame of the energy meter alone, which carries no current.
abbrev energy_only : ChargerStatus
energy_only = record drawing { current_a = none; power_w = none; session_energy = some 1_300 }

current_held : (after at_rest (energy_only ∷ drawing ∷ [])).current_a ≡ 10_000
unfolding after fold_charger_status
current_held = refl

abbrev garage : LoadpointInit
garage = record {
  name = "garage";
  max_current_a = none;
  default_mode = some smart;
  target_soc = some 80;
  target_time = none;
  target_kwh = none;
  min_soc = none;
}

abbrev set_by_hand : DbRow
set_by_hand = record (row_of garage) { mode = fast; guest_override = some "enyaq" }

abbrev stored : Dict DbRow
stored = ("garage", set_by_hand) ∷ []

override_stays : override_in stored "garage" ≡ some "enyaq"
unfolding get
override_stays = refl

abbrev soc : TargetPatch
soc = record { target_soc = some 90; target_time = none; target_kwh = leave; min_soc = none }

abbrev no_energy : TargetPatch
no_energy = record soc { target_soc = none; target_kwh = clear }

mode_alone :
    get
      (set_loadpoint_vehicle_override (set_loadpoint_mode stored "garage" fast) "garage" none)
      "garage"
    ≡ some (record set_by_hand { mode = fast; guest_override = none })
unfolding set_loadpoint_mode set_loadpoint_vehicle_override update_row get put update
mode_alone = refl

default_ceiling :
    config_to_loadpoint_inits
      (record {
        name = "garage";
        charger = "easee";
        default_mode = some smart;
        target_soc = some 80;
        target_time = none;
        target_kwh = none;
        min_soc = none;
      }
        ∷ [])
      (record { name = "easee"; max_a = none } ∷ [])
    ≡ (record garage { max_current_a = some 16_000 } ∷ [])
unfolding config_to_loadpoint_inits
default_ceiling = refl
