-- ===== src/Lifecycle/Tick.antt =====
-- `circuitTick` of src/core/lifecycle.ts as a whole, within its concurrency guard: the loadpoints are
-- prepared, the budget is resolved, each loadpoint decides, a balancer splits the budget, and the
-- limits and the recovery actions go out. The balancer of `balancers` is that of
-- src/modules/balancer-mqtt-circuit.
pub mod Outcome
pub mod Consistency
mod Tests
use open_smart_charge.Base.{
  ℕ, min, Bool, true, false, Option, none, some, String, List, [], ◌∷◌, ◌++◌, is_some,
  if◌then◌else◌, get_or_else, map,
}
use open_smart_charge.Base.Dict.{Dict, get}
use open_smart_charge.Base.Int.{pos}
use open_smart_charge.Balancer
use open_smart_charge.Balancer.{allocate}
use open_smart_charge.ControlLoop.{Circuit, shared, bare, Loadpoint, Reader, members}
use open_smart_charge.SmartCharging.Rollup.{LoadRow}
use open_smart_charge.Lifecycle.{
  Resolved, Effect, ChargerAbilities, Control, circuit_tick, climate_max_offer,
}
use open_smart_charge.Lifecycle.Budget.{Settings, BalancerConfig, Moment, resolve_circuit_budget}
use open_smart_charge.Lifecycle.Prepare.{PollSettings, TickLoadpoint, prepare, has_presence}
use open_smart_charge.Lifecycle.Resolve.{Surroundings, LoadpointSettings, resolve_loadpoint}
use open_smart_charge.Lifecycle.Site.{Site, Runtime}

-- `config` and the modules, with the settings of each loadpoint by its name.
pub record Setup : Type 0 where
  pub settings : Settings
  pub balancers : Dict BalancerConfig
  pub deadband : ℕ
  pub poll : PollSettings
  pub presence : Dict Bool
  pub chargers : Dict ChargerAbilities
  pub readers : Dict Reader
  pub history : List LoadRow
  pub earliest : ℕ
  pub loadpoints : Dict LoadpointSettings
  pub auto_revert : Dict Bool

-- `autoRevertToSmart` is on by default.
abbrev tick_loadpoint : Setup → Loadpoint → TickLoadpoint
tick_loadpoint c lp = record {
  name = lp.name;
  auto_revert_to_smart = get_or_else (get c.auto_revert lp.name) true;
}

abbrev settings_of : Setup → Loadpoint → LoadpointSettings
settings_of c lp =
    get_or_else (get c.loadpoints lp.name)
      (record { name = lp.name; tariff = none; balancer_phases = none; charger_phases = none })

-- What the budget reads of the site.
unfoldable pub moment_of : Setup → ℕ → Site → Moment
moment_of c hour site = record {
  hour = hour;
  earliest = c.earliest;
  history = c.history;
  readers = c.readers;
  max_currents = map (λ e. (e.0, e.1.state.max_current_a)) site.states;
  currents = map (λ e. (e.0, e.1.state.live.current_a)) site.states;
  commanded = site.control.last_commanded;
}

abbrev collected : Option Resolved → List Resolved → List Resolved
collected none rs = rs
collected (some r) rs = r ∷ rs

-- The loadpoints touch only what is their own, so that the order of their turns does not matter.
unfoldable pub resolve_all : Surroundings → ℕ → Setup → List Loadpoint → Site → Site × List Resolved
resolve_all s budget c [] site = (site, [])
resolve_all s budget c (lp ∷ lps) site =
    let first = resolve_loadpoint s budget (settings_of c lp) site in
    let rest = resolve_all s budget c lps first.0 in (rest.0, collected first.1 rest.1)

abbrev ceiling_of : Option Runtime → ℕ
ceiling_of none = 0
ceiling_of (some r) = r.state.max_current_a

-- `buildSnapshot`, as far as the allocator reads it, with the cap of a loadpoint that only heats.
unfoldable pub build_snapshot : Dict ℕ → Dict Runtime → Resolved → Balancer.Snapshot
build_snapshot commanded states r =
    let max_a = ceiling_of (get states r.name) in
    record {
      id = r.name;
      mode = r.mode;
      commanded_a = get commanded r.name;
      max_current_a = if r.climate_only then min max_a climate_max_offer else max_a;
      should_charge_now = r.should_charge_now;
      target_reached = some r.target_reached;
      pause_on_target = some r.pause_on_target;
    }

abbrev apply_tick : Setup → ℕ → ℕ → Site → List Resolved → Option (Dict ℕ) → Site × List Effect
apply_tick c budget now site rs allocations =
    let out = circuit_tick budget allocations c.deadband now c.chargers site.control rs in
    (record site { control = out.0 }, out.1)

-- From the resolved loadpoints on. A circuit whose balancer has no module is left alone.
unfoldable pub coordinate : Setup → Circuit → ℕ → ℕ → Site → List Resolved → Site × List Effect
coordinate c circuit budget now site [] = (site, [])
coordinate c (bare lp) budget now site (r ∷ rs) = apply_tick c budget now site (r ∷ rs) none
coordinate c (shared name lps) budget now site (r ∷ rs) =
    let snapshots = map (build_snapshot site.control.last_commanded site.states) (r ∷ rs) in
    let split = apply_tick c budget now site (r ∷ rs) (some (allocate snapshots (pos budget))) in
    if is_some (get c.balancers name) then split else (site, [])

-- The body of a tick: the site, the effects on chargers and cars, and the vehicles that are refreshed.
unfoldable pub run_tick :
    Surroundings → Setup → ℕ → Circuit → Site → Site × (List Effect × List String)
run_tick s c hour circuit site =
    let (ready, polls) =
      prepare c.poll c.presence s.candidates hour s.now (map (tick_loadpoint c) (members circuit))
        site in
    let budget = resolve_circuit_budget c.settings c.balancers (moment_of c hour ready) circuit in
    let (decided, rs) = resolve_all s budget c (members circuit) ready in
    let (done, effects) = coordinate c circuit budget s.now decided rs in (done, (effects, polls))
