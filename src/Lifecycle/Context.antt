-- ===== src/Lifecycle/Context.antt =====
-- The energy context of a loadpoint in src/core/lifecycle.ts: which vehicle is there, what it says, the state
-- of charge that is carried forward from its last reading, and the history of prices.
use open_smart_charge.Base.{
  ℕ, ◌+◌, ◌/◌, ◌==◌, Bool, false, not, Option, none, some, String, List, [], ◌∷◌, str_eq, map,
  if◌then◌else◌, get_or_else,
}
use open_smart_charge.Base.Dict.{Dict, get}
use open_smart_charge.Base.Int.{ℤ, pos, negsuc, ◌+ℤ◌}
use open_smart_charge.Planner.{TariffSlot}
use open_smart_charge.SmartCharging.Energy.{
  Anchor, EnergyReading, estimate_soc_since_anchor, observed_efficiency,
}
use open_smart_charge.SmartCharging.Guest.{resolve_active_vehicle, positive_claimant, truthy}
use open_smart_charge.Lifecycle.{CarData}
use open_smart_charge.Lifecycle.Site.{Site, Runtime, save_override, wh}

-- `VehicleData`, with states of charge in thousandths of a percent and the range in m.
pub record VehicleData : Type 0 where
  pub soc : ℕ
  pub range : Option ℕ
  pub target_soc : Option ℕ
  pub plugged_in : Option Bool
  pub is_charging : Option Bool
  pub climate_active : Option Bool

-- A vehicle: its cached data, if it has any, its cached capacity in Wh, and whether it can be woken.
pub record Vehicle : Type 0 where
  pub cached : Option VehicleData
  pub capacity : Option ℕ
  pub can_actuate : Bool

abbrev pub data_of : Option Vehicle → Option VehicleData
data_of none = none
data_of (some v) = v.cached

abbrev pub capacity_of : Option Vehicle → Option ℕ
capacity_of none = none
capacity_of (some v) = v.capacity

abbrev plugged_of : Option VehicleData → Option Bool
plugged_of none = none
plugged_of (some d) = d.plugged_in

abbrev pub plug_readings : Dict Vehicle → String → Option Bool
plug_readings vehicles v = plugged_of (data_of (get vehicles v))

-- Nothing is looked up for the guest, nor for an empty name.
abbrev pub lookup : {A : Type 0} → Option String → (String → Option A) → Option A
lookup none f = none
lookup (some v) f = f v

abbrev observed_of : Option Anchor → Option Anchor → Option ℕ → Option ℕ
observed_of (some first) (some latest) capacity = observed_efficiency first latest capacity
observed_of _ _ capacity = none

-- The efficiency observed in this session, or the configured one.
unfoldable pub effective_efficiency_for : Site → String → Option ℕ → ℕ → ℕ
effective_efficiency_for site name capacity configured =
    get_or_else
      (observed_of (get site.session_first_reading name) (get site.vehicle_anchor name) capacity)
      configured

abbrev carried : Option Anchor → ℕ → Option ℕ → ℕ → Option ℕ
carried none session capacity efficiency = none
carried (some a) session capacity efficiency =
    estimate_soc_since_anchor a.soc a.session_energy session capacity efficiency

unfoldable pub estimated_soc_for : Site → String → Option ℕ → ℕ → ℕ → Option ℕ
estimated_soc_for site name capacity session configured =
    carried (get site.vehicle_anchor name) session capacity
      (effective_efficiency_for site name capacity configured)

pub record EnergyContext : Type 0 where
  pub estimated_soc : Option ℕ
  pub reading : EnergyReading
  pub climate_active : Option Bool
  pub session_energy : ℕ
  pub efficiency : ℕ
  pub active_vehicle : Option String

-- The vehicle that is resolved, from the cached views of all candidates.
unfoldable pub active_vehicle_of : Dict Vehicle → List String → Runtime → Option String
active_vehicle_of vehicles candidates r = resolve_active_vehicle (record {
  candidates = candidates;
  connected = r.state.live.connected;
  plugged_in = plug_readings vehicles;
  vehicle_override = r.state.vehicle_override;
  latched = r.active_vehicle;
})

-- `claim && vehicleOverride !== undefined && claim !== vehicleOverride`
abbrev pub supersedes : Option String → Option String → Bool
supersedes (some claim) (some o) = not (str_eq claim o)
supersedes _ _ = false

abbrev climate_of : Option VehicleData → Option Bool
climate_of none = none
climate_of (some d) = d.climate_active

abbrev soc_of : Option VehicleData → Option ℕ
soc_of none = none
soc_of (some d) = some d.soc

abbrev range_of : Option VehicleData → Option ℕ
range_of none = none
range_of (some d) = d.range

-- The site is as it is once a superseded override was cleared.
unfoldable pub gather_energy_context :
    Dict Vehicle → List String → ℕ → Site → String → Runtime → Site × EnergyContext
gather_energy_context vehicles candidates configured site name r =
    let active = active_vehicle_of vehicles candidates r in
    let claim = truthy (positive_claimant candidates (plug_readings vehicles)) in
    let vehicle = lookup (truthy active) (get vehicles) in
    let capacity = capacity_of vehicle in
    let session = wh r.state.live.session_energy in
    (
      if supersedes claim r.state.vehicle_override then save_override site name none else site,
      record {
        estimated_soc =
            lookup (truthy active) (λ v. estimated_soc_for site name capacity session configured);
        reading = record {
          soc = soc_of (data_of vehicle);
          range = range_of (data_of vehicle);
          capacity = capacity;
        };
        climate_active = climate_of (data_of vehicle);
        session_energy = session;
        efficiency = effective_efficiency_for site name capacity configured;
        active_vehicle = active;
      },
    )

-- The car's own view, for the session reconciler.
unfoldable pub car_data : Dict Vehicle → Option String → Option CarData
car_data vehicles active = elim (data_of (lookup (truthy active) (get vehicles))) [
  | none ↦ none
  | some d ↦ some (record {
    soc = some d.soc;
    target_soc = d.target_soc;
    plugged_in = d.plugged_in;
    is_charging = d.is_charging;
  })
]

abbrev pub can_actuate_of : Option Vehicle → Bool
can_actuate_of none = false
can_actuate_of (some v) = v.can_actuate

-- An entry of `acc`: the hour, the sum of its prices, and how many there are.
pub record Sum : Type 0 where
  pub hour : ℕ
  pub total : ℤ
  pub count : ℕ

unfoldable pub add_price : List Sum → ℕ → ℤ → List Sum
add_price [] h price = record { hour = h; total = price; count = 1 } ∷ []
add_price (e ∷ es) h price =
    if e.hour == h
    then record e { total = e.total +ℤ price; count = e.count + 1 } ∷ es
    else e ∷ add_price es h price

unfoldable pub add_prices : (ℕ → ℕ) → List TariffSlot → List Sum → List Sum
add_prices local_hour [] acc = acc
add_prices local_hour (s ∷ ss) acc =
    add_prices local_hour ss (add_price acc (local_hour s.start) s.price)

-- Rounded down.
unfoldable pub div_ℤ : ℤ → ℕ → ℤ
div_ℤ (pos n) k = pos (n / k)
div_ℤ (negsuc n) k = negsuc (n / k)

-- The average price of each hour of the day, over the slots of the last days.
unfoldable pub historical_price_avg : (ℕ → ℕ) → List TariffSlot → Option (List (ℕ × ℤ))
historical_price_avg local_hour [] = none
historical_price_avg local_hour (s ∷ ss) =
    some (map (λ e. (e.hour, div_ℤ e.total e.count)) (add_prices local_hour (s ∷ ss) []))
