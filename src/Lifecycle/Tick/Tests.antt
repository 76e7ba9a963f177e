-- ===== src/Lifecycle/Tick/Tests.antt =====
-- Whole ticks at concrete inputs.
use open_smart_charge.Base.{
  min, ◌*◌, ◌/◌, ◌≡◌, refl, arith, true, false, ◌&&◌, ◌==◌, none, some, List, [], ◌∷◌, max,
  get_or_else, if◌then◌else◌, All, str_eq, Bool-cases, inl, inr, ap,
}
use mathlib.Core.Option.{some-injective}
use open_smart_charge.Base.Dict.{get}
use open_smart_charge.Balancer.{smart, fast, disabled}
use open_smart_charge.ControlLoop.{bare, Loadpoint, circuit_live_max_phase, choose_reader, truthy}
use open_smart_charge.Lifecycle.Budget.{IsUnderFuse}
use open_smart_charge.Lifecycle.Site.{Runtime}
use open_smart_charge.Lifecycle.Site.Agreement.{row_of_state}
use open_smart_charge.Lifecycle.Prepare.{prepare}
use open_smart_charge.Lifecycle.Resolve.{
  Surroundings, LoadpointSettings, Basis, resolved_of, price_decision,
}
use open_smart_charge.Lifecycle.Resolve.Forces.{resolved_of-draws, draws, BelowMin, IsHeating}
use open_smart_charge.Lifecycle.Tick.{Setup, run_tick, moment_of, tick_loadpoint}
use open_smart_charge.Lifecycle.Tick.Outcome.{run_tick-IsUnderFuse}
use open_smart_charge.Lifecycle.Tick.Consistency.{
  IsConsistent, happen_all, Event, happen_all-IsConsistent, pushed, mode_set, override_set, ticked,
}
use open_smart_charge.SmartCharging.Energy.{soc_capacity}
use open_smart_charge.Health.{ok}
use open_smart_charge.Lifecycle.Fixtures.{garage, site, frame_of, cadence}

-- The Skoda is at 15 %, under the minimum, at an hour that is dear.
abbrev low : Basis
low = record {
  ctx = record {
    estimated_soc = some 15_000;
    reading = record { soc = some 15_000; range = none; capacity = some 77_000 };
    climate_active = none;
    session_energy = 0;
    efficiency = 920;
    active_vehicle = some "skoda";
  };
  active_plan = none;
  target_time = 187_200_000;
  energy = record {
    required = 54_403;
    resolved_soc = some 80_000;
    source = soc_capacity;
    is_degraded = false;
  };
}

-- A site in UTC, at eight in the morning of the second day of the epoch.
abbrev morning : Surroundings
morning = record {
  now = 115_200_000;
  wall = λ t. t / 60_000 * 60_000;
  process_wall = λ t. t;
  vehicles = [];
  candidates = [];
  plans = [];
  read_time = λ text. record { hour = 7; minute = 0 };
  efficiency = 920;
  night_start = 23;
  night_end = 5;
  historical_days = 3;
}

abbrev garage_settings : LoadpointSettings
garage_settings = record {
  name = "garage";
  tariff = none;
  balancer_phases = none;
  charger_phases = none;
}

abbrev smart_garage : Runtime
smart_garage = record garage { state = record garage.state { mode = smart } }

resolved_of-draws_example :
    let amps = draws 16_000 [] (resolved_of morning 16_000 garage_settings smart_garage low).0 in
    let charges =
      (price_decision morning 16_000 garage_settings smart_garage.state low).should_charge in
    (smart_garage.state.mode ≡ disabled → amps ≡ 0)
    × (smart_garage.state.mode ≡ smart
        → BelowMin low.ctx.estimated_soc smart_garage.state.min_soc
        → amps ≡ 16_000)
    × (smart_garage.state.mode ≡ smart → charges ≡ true → amps ≡ 16_000)
    × (smart_garage.state.mode ≡ smart
        → charges ≡ false
        → (BelowMin low.ctx.estimated_soc smart_garage.state.min_soc → ⊥)
        → IsHeating low smart_garage
        → amps ≡ min 6_000 16_000)
    × (smart_garage.state.mode ≡ smart
        → charges ≡ false
        → (BelowMin low.ctx.estimated_soc smart_garage.state.min_soc → ⊥)
        → (IsHeating low smart_garage → ⊥)
        → amps ≡ 0)
    × (low.energy.required ≡ 0 → charges ≡ false)
    × (smart_garage.state.mode ≡ fast
        → amps ≡ (
            if (low.energy.required == 0)
              && (resolved_of morning 16_000 garage_settings smart_garage low).0.pause_on_target
            then 0
            else 16_000))
resolved_of-draws_example = resolved_of-draws morning 16_000 garage_settings smart_garage low []

abbrev setup : Setup
setup = record {
  settings = record {
    main_breaker = some 20_000;
    reserve = 1_000;
    night_start = 23;
    night_end = 5;
    night_margin = 3_000;
    daytime_fraction = 500;
  };
  balancers = [];
  deadband = 1_000;
  poll = cadence;
  presence = [];
  chargers = ("garage", record { remote_start = true; clear_profile = true; reset = true }) ∷ [];
  readers =
      (
        "pulse",
        record {
          health = ok;
          latest = some (record { i1 = some 5_000; i2 = some 7_000; i3 = none });
        },
      )
      ∷ [];
  history = [];
  earliest = 0;
  loadpoints = [];
  auto_revert = [];
}

abbrev garage_circuit : Loadpoint
garage_circuit = record { name = "garage"; balancer = none }

live_load : circuit_live_max_phase none setup.readers ≡ some 7_000
unfolding circuit_live_max_phase choose_reader truthy
live_load = refl

run_tick-IsUnderFuse_example :
    let ready =
      (prepare setup.poll setup.presence morning.candidates 8 morning.now
        (tick_loadpoint setup garage_circuit ∷ [])
        site).0 in
    let m = moment_of setup 8 ready in
    let own =
      max (get_or_else (get m.currents "garage") 0) (get_or_else (get m.commanded "garage") 0) in
    All
      (IsUnderFuse 20_000 1_000 7_000 own)
      (run_tick morning setup 8 (bare garage_circuit) site).1.0
run_tick-IsUnderFuse_example =
    run_tick-IsUnderFuse morning setup 8 garage_circuit site 20_000 7_000 (omega arith) refl
      live_load

site-IsConsistent : IsConsistent site
unfolding get
site-IsConsistent name r e = elim (Bool-cases (str_eq "garage" name)) [
  | inl same ↦
      let same_runtime : some garage ≡ some r = rw same at e in
      rw same (ap (λ x. some (row_of_state x.state)) (some-injective _ _ same_runtime))
  | inr other ↦ absurd (let absent : none ≡ some r = rw other at e in cc)
]

abbrev a_morning : List Event
a_morning =
    pushed "garage" frame_of 1_000
    ∷ mode_set "garage" smart
    ∷ ticked morning setup 8 (bare garage_circuit)
    ∷ override_set "garage" (some "guest")
    ∷ []

happen_all-IsConsistent_example : IsConsistent (happen_all [] site a_morning)
happen_all-IsConsistent_example = happen_all-IsConsistent [] site a_morning site-IsConsistent
