-- ===== src/SmartCharging/Energy.antt =====
-- src/core/smart-charging/energy.ts, src/core/estimator.ts and the constants of src/core/electrical.ts.
-- A percentage is in thousandths of a percent, an energy in Wh, a range in m, an efficiency and a duty
-- cycle in thousandths, a time in ms. A required energy is rounded up to whole Wh, and a state of
-- charge down to a thousandth of a percent.
pub mod Reaches
mod Tests
use open_smart_charge.Base.{
  ℕ, ◌+◌, ◌-◌, ◌*◌, ◌/◌, min, max, Bool, true, false, ◌&&◌, ◌||◌, Option, none, some, List, [], ◌∷◌,
  ◌++◌, ltb, leb, ◌==◌, get_or_else, is_some, if◌then◌else◌,
}
use open_smart_charge.Base.Divide.{ceil_div}
use open_smart_charge.Plans.{PlanUnit, pct, km, kwh}

abbrev pub default_charging_efficiency : ℕ
default_charging_efficiency = 920

abbrev pub duty_cycle_fallback : ℕ
duty_cycle_fallback = 400

-- In mW, with the current in mA.
unfoldable pub charge_rate_kw : ℕ → ℕ → ℕ
charge_rate_kw max_current phases = max_current * phases * 230

pub record Target : Type 0 where
  pub unit : PlanUnit
  pub value : ℕ

pub record EnergyReading : Type 0 where
  pub soc : Option ℕ
  pub range : Option ℕ
  pub capacity : Option ℕ

-- `value / (range / soc)`
unfoldable pub km_to_soc : ℕ → Option ℕ → Option ℕ → Option ℕ
km_to_soc value (some range) (some soc) =
    if leb soc 0 || leb range 0 then none else some (min 100_000 (value * soc / range))
km_to_soc value _ _ = none

unfoldable pub target_to_soc : Target → EnergyReading → Option ℕ
target_to_soc t r = elim t.unit [
  | pct ↦ some t.value
  | km ↦ km_to_soc t.value r.range r.soc
  | kwh ↦ none
]

abbrev pub push_if : Bool → PlanUnit → List PlanUnit
push_if true u = u ∷ []
push_if false u = []

abbrev is_positive : Option ℕ → Bool
is_positive none = false
is_positive (some n) = ltb 0 n

unfoldable pub available_units : EnergyReading → List PlanUnit
available_units r =
    push_if (is_some r.soc && is_positive r.capacity) pct
    ++ (push_if (is_some r.soc && (is_positive r.capacity && is_some r.range)) km ++ (kwh ∷ []))

pub record VehicleCapabilities : Type 0 where
  pub soc : Bool
  pub range : Bool
  pub capacity : Bool
  pub presence : Bool

unfoldable pub target_units_for : VehicleCapabilities → List PlanUnit
target_units_for c =
    push_if (c.soc && c.capacity) pct
    ++ (push_if (c.soc && (c.capacity && c.range)) km ++ (kwh ∷ []))

unfoldable pub auto_identifiable : VehicleCapabilities → Bool
auto_identifiable c = c.presence

pub data EnergyRung : Type 0 where
  soc_capacity target_kwh duty_cycle : EnergyRung

pub record Resolved : Type 0 where
  pub value : ℕ
  pub source : EnergyRung
  pub is_degraded : Bool

pub record EnergyInputs : Type 0 where
  pub estimated_soc : Option ℕ
  pub target_soc : Option ℕ
  pub battery_capacity : Option ℕ
  pub target_kwh : Option ℕ
  pub session_energy : ℕ
  pub time_until_target : ℕ
  pub max_current : ℕ
  pub phases : ℕ
  pub efficiency : Option ℕ
  pub duty_cycle : Option ℕ

-- `remainingPct / 100 * capacity / efficiency`. The schema keeps the efficiency above zero.
unfoldable pub grid_energy : ℕ → ℕ → ℕ → ℕ → ℕ
grid_energy soc target capacity efficiency = ceil_div ((target - soc) * capacity) (efficiency * 100)

-- `hoursUntilTarget * rateKW * dutyCycle`, at least 1 kWh.
unfoldable pub duty_energy : ℕ → ℕ → ℕ → ℕ
duty_energy time rate duty = max 1_000 (ceil_div (time * rate * duty) (3_600_000 * 1_000_000))

abbrev by_target_kwh : EnergyInputs → Option ℕ → Resolved
by_target_kwh i (some t) = record {
  value = t - i.session_energy;
  source = target_kwh;
  is_degraded = true;
}
by_target_kwh i none = record {
  value =
      duty_energy i.time_until_target (charge_rate_kw i.max_current i.phases)
        (get_or_else i.duty_cycle duty_cycle_fallback);
  source = duty_cycle;
  is_degraded = true;
}

-- A capacity of zero counts as none.
unfoldable pub by_soc : EnergyInputs → Option ℕ → Option ℕ → Option ℕ → Resolved
by_soc i (some soc) (some capacity) (some target) =
    if capacity == 0 then by_target_kwh i i.target_kwh else record {
      value =
          grid_energy soc target capacity (get_or_else i.efficiency default_charging_efficiency);
      source = soc_capacity;
      is_degraded = false;
    }
by_soc i _ _ _ = by_target_kwh i i.target_kwh

unfoldable pub resolve_energy_target : EnergyInputs → Resolved
resolve_energy_target i = by_soc i i.estimated_soc i.battery_capacity i.target_soc

pub record TargetContext : Type 0 where
  pub reading : EnergyReading
  pub estimated_soc : Option ℕ
  pub session_energy : ℕ
  pub time_until_target : ℕ
  pub max_current : ℕ
  pub phases : ℕ
  pub efficiency : Option ℕ
  pub duty_cycle : Option ℕ

pub record ResolvedTarget : Type 0 where
  pub required : ℕ
  pub resolved_soc : Option ℕ
  pub source : EnergyRung
  pub is_degraded : Bool

abbrev soc_of_target : Option Target → EnergyReading → Option ℕ
soc_of_target none r = none
soc_of_target (some t) r = target_to_soc t r

abbrev kwh_of_target : Option Target → Option ℕ
kwh_of_target none = none
kwh_of_target (some t) = elim t.unit [ pct ↦ none | km ↦ none | kwh ↦ some t.value ]

unfoldable pub resolve_target : Option Target → TargetContext → ResolvedTarget
resolve_target target ctx =
    let resolved_soc = soc_of_target target ctx.reading in
    let energy = resolve_energy_target (record {
      estimated_soc = ctx.estimated_soc;
      target_soc = resolved_soc;
      battery_capacity = ctx.reading.capacity;
      target_kwh = kwh_of_target target;
      session_energy = ctx.session_energy;
      time_until_target = ctx.time_until_target;
      max_current = ctx.max_current;
      phases = ctx.phases;
      efficiency = ctx.efficiency;
      duty_cycle = ctx.duty_cycle;
    }) in
    record {
      required = energy.value;
      resolved_soc = resolved_soc;
      source = energy.source;
      is_degraded = energy.is_degraded;
    }

-- `estimateSoc`: nothing without a capacity above zero.
unfoldable pub estimate_soc : ℕ → ℕ → Option ℕ → ℕ → Option ℕ
estimate_soc last_known delivered none efficiency = none
estimate_soc last_known delivered (some capacity) efficiency =
    if leb capacity 0
    then none
    else some (min 100_000 (last_known + delivered * (efficiency * 100) / capacity))

unfoldable pub estimate_soc_since_anchor : ℕ → ℕ → ℕ → Option ℕ → ℕ → Option ℕ
estimate_soc_since_anchor anchor_soc anchor_session session_now capacity efficiency =
    estimate_soc anchor_soc (session_now - anchor_session) capacity efficiency

-- A real reading, and the energy of the session at that moment.
pub record Anchor : Type 0 where
  pub soc : ℕ
  pub session_energy : ℕ

abbrev pub min_observe_kwh : ℕ
min_observe_kwh = 3_000

abbrev pub min_observe_soc : ℕ
min_observe_soc = 2_000

-- The band of 0.7 to 0.98 is tested on the products, before the quotient is rounded.
unfoldable pub observed_efficiency : Anchor → Anchor → Option ℕ → Option ℕ
observed_efficiency first latest none = none
observed_efficiency first latest (some capacity) =
    let gained = (latest.soc - first.soc) * capacity in
    let delivered = latest.session_energy - first.session_energy in
    if leb capacity 0
    then none
    else if ltb latest.session_energy (first.session_energy + min_observe_kwh)
        || ltb latest.soc (first.soc + min_observe_soc)
    then none
    else if ltb gained (delivered * (100 * 700)) || ltb (delivered * (100 * 980)) gained
    then none
    else some (gained / (delivered * 100))
