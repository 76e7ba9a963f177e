-- ===== src/Lifecycle/Tests.antt =====
-- Ticks at concrete inputs.
use open_smart_charge.Base.{◌≡◌, refl, true, false, none, some, [], ◌∷◌, map, All}
use open_smart_charge.Base.Dict.{Dict, get, put}
use open_smart_charge.Balancer.{smart}
use open_smart_charge.Charger.{suspended_ev}
use open_smart_charge.ControlLoop.{
  plan_circuit, set_amps, set_writes, amps_of, bare_circuit_amps, soft_start_limit,
}
use open_smart_charge.Base.Int.{max_ℤ, min_ℤ, ◌+ℤ◌, ◌-ℤ◌}
use open_smart_charge.SmartCharging.Current.{resolve_current_budget, ladder, live_rung, settle}
use open_smart_charge.Health.{ok}
use open_smart_charge.ControlLoop.{bare, circuit_live_max_phase, choose_reader, truthy}
use open_smart_charge.Lifecycle.Budget.{Settings, Moment, resolve_circuit_budget, inputs_of}
use open_smart_charge.SmartCharging.Gates.{should_write}
use open_smart_charge.SmartCharging.Complete.{resolve_session_complete}
use open_smart_charge.Session.{decide_session, ends_episode, is_away}
use open_smart_charge.Lifecycle.{
  Resolved, Control, ChargerAbilities, limit, decision_of, circuit_tick, write_limits,
  reconcile_all, reconcile_one, complete_of, session_of,
}
use open_smart_charge.Lifecycle.Bounds.{IsSafe, Remembers, circuit_tick-IsSafe}

abbrev garage : Resolved
garage = record {
  name = "garage";
  mode = smart;
  connected = true;
  status = some suspended_ev;
  current_a = 0;
  delivered = 0;
  should_charge_now = some true;
  climate_only = false;
  climate_active = false;
  required = 5_000;
  target_reached = false;
  pause_on_target = true;
  car = none;
  vehicle_can_actuate = false;
}

abbrev chargers : Dict ChargerAbilities
chargers = ("garage", record { remote_start = true; clear_profile = true; reset = true }) ∷ []

abbrev first_tick : Control
first_tick = record {
  last_commanded = [];
  session_states = [];
  zero_draw_since = [];
  session_complete = [];
}

circuit_tick-IsSafe_example :
    let plan = plan_circuit (map (decision_of 16_000 []) (garage ∷ [])) none 1_000 in
    let (c', effects) = circuit_tick 16_000 none 1_000 90_000 chargers first_tick (garage ∷ []) in
    All (IsSafe 16_000 plan.amps) effects × Remembers 16_000 [] c'.last_commanded
circuit_tick-IsSafe_example =
    circuit_tick-IsSafe 16_000 1_000 90_000 chargers first_tick (garage ∷ [])

-- A car that was paused is started at half the budget, and its stall is noted.
soft_start :
    (circuit_tick 16_000 none 1_000 90_000 chargers first_tick (garage ∷ [])).1
    ≡ limit "garage" 8_000 ∷ []
unfolding circuit_tick plan_circuit set_amps write_limits set_writes should_write decision_of get
    put soft_start_limit reconcile_all amps_of reconcile_one bare_circuit_amps session_of
    decide_session ends_episode complete_of resolve_session_complete is_away
soft_start = refl

abbrev settings : Settings
settings = record {
  main_breaker = some 20_000;
  reserve = 1_000;
  night_start = 22;
  night_end = 6;
  night_margin = 3_000;
  daytime_fraction = 500;
}

-- A house that draws 7 A on its second phase.
abbrev evening : Moment
evening = record {
  hour = 19;
  earliest = 0;
  history = [];
  readers =
      (
        "pulse",
        record {
          health = ok;
          latest = some (record { i1 = some 5_000; i2 = some 7_000; i3 = none });
        },
      )
      ∷ [];
  max_currents = ("garage", 16_000) ∷ [];
  currents = [];
  commanded = [];
}

house_load : circuit_live_max_phase none evening.readers ≡ some 7_000
unfolding circuit_live_max_phase choose_reader truthy
house_load = refl

twelve_amps :
    resolve_circuit_budget settings [] evening (bare (record { name = "garage"; balancer = none }))
    ≡ 12_000
unfolding resolve_circuit_budget resolve_current_budget ladder inputs_of circuit_live_max_phase
    choose_reader truthy live_rung settle max_ℤ min_ℤ ◌+ℤ◌ ◌-ℤ◌ get
twelve_amps = refl
