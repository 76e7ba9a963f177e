-- ===== src/Lifecycle.antt =====
-- src/core/lifecycle.ts: the second half of `circuitTick`, from the resolved loadpoints on: the plan of
-- the circuit, the writes of limits with their soft start, the detection of completed sessions and the
-- session reconciler. A failed write is swallowed by the program, so a write is an effect that is sent.
-- Events for the interface and log lines are left out.
pub mod Bounds
pub mod Budget
pub mod Slots
pub mod Site
pub mod Prepare
pub mod Context
pub mod Resolve
pub mod Tick
pub mod Meter
mod Fixtures
mod Tests
use open_smart_charge.Base.{
  ℕ, min, Bool, true, false, ◌&&◌, not, Option, none, some, String, List, [], ◌∷◌, ◌++◌, ltb, leb,
  get_or_else, is_some, if◌then◌else◌, map,
}
use open_smart_charge.Base.Dict.{Dict, get, put, remove}
use open_smart_charge.Balancer.{Mode}
use open_smart_charge.Charger.{Connector}
use open_smart_charge.ControlLoop.{plan_circuit, soft_start_limit}
use open_smart_charge.SmartCharging.Complete.{session_complete, resolve_session_complete}
use open_smart_charge.Session
use open_smart_charge.ControlLoop
use open_smart_charge.SmartCharging
use open_smart_charge.Session.{Action, nothing, session_reconcile, idle_state, decide_session}

-- The car's own view, where it has one.
pub record CarData : Type 0 where
  pub soc : Option ℕ
  pub target_soc : Option ℕ
  pub plugged_in : Option Bool
  pub is_charging : Option Bool

-- Which of the optional operations a charger has.
pub record ChargerAbilities : Type 0 where
  pub remote_start : Bool
  pub clear_profile : Bool
  pub reset : Bool

-- `ResolvedLoadpoint`, with what the tick reads of the loadpoint's state and of its vehicle.
pub record Resolved : Type 0 where
  pub name : String
  pub mode : Mode
  pub connected : Bool
  pub status : Option Connector
  pub current_a : ℕ
  pub delivered : ℕ
  pub should_charge_now : Option Bool
  pub climate_only : Bool
  pub climate_active : Bool
  pub required : ℕ
  pub target_reached : Bool
  pub pause_on_target : Bool
  pub car : Option CarData
  pub vehicle_can_actuate : Bool

-- The maps that the lifecycle keeps across ticks, by loadpoint.
pub record Control : Type 0 where
  pub last_commanded : Dict ℕ
  pub session_states : Dict Session.State
  pub zero_draw_since : Dict ℕ
  pub session_complete : Dict Bool

pub data Effect : Type 0 where
  limit : (name : String) (amps : ℕ) → Effect
  act : (name : String) (action : Action) (reassert : ℕ) → Effect

abbrev pub climate_max_offer : ℕ
climate_max_offer = 6_000

-- One of `decisions`.
unfoldable pub decision_of : ℕ → Dict ℕ → Resolved → ControlLoop.Decision
decision_of budget commanded r = record {
  loadpoint_name = r.name;
  mode = r.mode;
  should_charge_now = r.should_charge_now;
  budget = if r.climate_only then min climate_max_offer budget else budget;
  last_commanded = get commanded r.name;
  target_reached = r.target_reached;
  pause_on_target = r.pause_on_target;
}

-- The loop over the writes, with the table of the loadpoints' chargers.
unfoldable pub write_limits :
    Dict ChargerAbilities → Dict ℕ → List (String × ℕ) → Dict ℕ × List Effect
write_limits chargers commanded [] = (commanded, [])
write_limits chargers commanded ((k, w) ∷ ws) =
    let amps = soft_start_limit w (get_or_else (get commanded k) 0) 6_000 in
    let written = write_limits chargers (put commanded k amps) ws in
    let skipped = write_limits chargers commanded ws in
    if is_some (get chargers k) then (written.0, limit k amps ∷ written.1) else skipped

abbrev reaches : Option ℕ → Option ℕ → Bool
reaches (some soc) (some target) = leb target soc
reaches _ _ = false

abbrev car_at_target : Option CarData → Bool
car_at_target none = false
car_at_target (some c) = reaches c.soc c.target_soc

abbrev plugged_view : Option CarData → Option Bool
plugged_view none = none
plugged_view (some c) = c.plugged_in

abbrev charging_view : Option CarData → Option Bool
charging_view none = none
charging_view (some c) = c.is_charging

abbrev keep_or_drop : Dict ℕ → String → Option ℕ → Dict ℕ
keep_or_drop m k none = remove m k
keep_or_drop m k (some t) = put m k t

abbrev pub acts : String → Action → ℕ → List Effect
acts k nothing reassert = []
acts k action reassert = act k action reassert ∷ []

-- The completion of a session.
unfoldable pub complete_of : Dict ℕ → ℕ → ℕ → Resolved → SmartCharging.Complete.CompleteResult
complete_of zero_draw commanded now r =
    resolve_session_complete
      (record {
        connected = r.connected;
        climate_active = r.climate_active;
        delivered = r.delivered;
        commanded_a = commanded;
        drawing_a = r.current_a;
        required = r.required;
        pause_on_target = r.pause_on_target;
        zero_draw_since = get zero_draw r.name;
        now = now;
      })
      session_complete

-- The reconciler's decision on a loadpoint.
unfoldable pub session_of :
    Dict Session.State → Bool → ℕ → ℕ → ChargerAbilities → Resolved → Session.Decision
session_of states complete commanded now charger r =
    decide_session (get_or_else (get states r.name) idle_state)
      (record {
        wants_charge = ltb 0 commanded;
        status = r.status;
        drawing_a = r.current_a;
        car_plugged_in = plugged_view r.car;
        car_charging = charging_view r.car;
        car_at_target = some (car_at_target r.car);
        session_complete = some complete;
        vehicle_can_actuate = r.vehicle_can_actuate;
        charger_can_remote_start = charger.remote_start;
        charger_can_clear_profile = charger.clear_profile;
        charger_can_reset = charger.reset;
        now = now;
      })
      session_reconcile

-- The body of the loop over the resolved loadpoints, with what the plan commands.
unfoldable pub reconcile_one :
    ℕ → ℕ → Option ChargerAbilities → Control → Resolved → Control × List Effect
reconcile_one commanded now none c r = (c, [])
reconcile_one commanded now (some charger) c r =
    let done = complete_of c.zero_draw_since commanded now r in
    let dec = session_of c.session_states done.complete commanded now charger r in
    (
      record c {
        session_states = put c.session_states r.name dec.next;
        zero_draw_since = keep_or_drop c.zero_draw_since r.name done.zero_draw_since;
        session_complete = put c.session_complete r.name done.complete;
      },
      acts r.name dec.action commanded,
    )

unfoldable pub reconcile_all :
    Dict ℕ → ℕ → Dict ChargerAbilities → Control → List Resolved → Control × List Effect
reconcile_all amps now chargers c [] = (c, [])
reconcile_all amps now chargers c (r ∷ rs) =
    let commanded = get_or_else (get amps r.name) 0 in
    let first = reconcile_one commanded now (get chargers r.name) c r in
    let rest = reconcile_all amps now chargers first.0 rs in (rest.0, first.1 ++ rest.1)

-- The tick from the resolved loadpoints on, with the balancer's allocations if the circuit has one.
unfoldable pub circuit_tick :
    ℕ
    → Option (Dict ℕ)
    → ℕ
    → ℕ
    → Dict ChargerAbilities
    → Control
    → List Resolved
    → Control × List Effect
circuit_tick budget allocations deadband now chargers c rs =
    let plan = plan_circuit (map (decision_of budget c.last_commanded) rs) allocations deadband in
    let written = write_limits chargers c.last_commanded plan.writes in
    let reconciled =
      reconcile_all plan.amps now chargers (record c { last_commanded = written.0 }) rs in
    (reconciled.0, written.1 ++ reconciled.1)
