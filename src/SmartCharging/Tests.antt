-- ===== src/SmartCharging/Tests.antt =====
-- The resolvers at concrete inputs.
use open_smart_charge.Base.{
  ℕ, ◌+◌, ◌/◌, map, List, ◌≤◌, ◌≡◌, refl, ◌⊎◌, Bool, true, false, Option, none, some, String, [],
  ◌∷◌, arith, if◌then◌else◌, str_eq,
}
use open_smart_charge.Base.Int.{pos, ◌+ℤ◌, ◌-ℤ◌, min_ℤ, max_ℤ}
use open_smart_charge.LocalTime.{is_night}
use open_smart_charge.Planner.{TariffSlot}
use open_smart_charge.SmartCharging.Rollup.{
  record_all, record_household_load, upsert, worst_case_load, Samples,
}
use open_smart_charge.SmartCharging.Price.{
  PriceInputs, hour_top, non_empty, resolve_price_curve, price_ladder, build_hourly_curve,
  curve_from, IsPriced, Costs, resolve_price_curve-IsPriced,
}
use open_smart_charge.SmartCharging.Current.{
  CurrentInputs, resolve_current_budget, ladder, live_rung, static_rung, settle, IsBudget,
  resolve_current_budget_safe,
}
use open_smart_charge.SmartCharging.Complete.{
  CompleteInput, session_complete, resolve_session_complete,
}
use open_smart_charge.SmartCharging.Guest.{
  ActiveVehicleInput, resolve_active_vehicle, claimants_of, positive_claimant, truthy,
}

-- A 20 A fuse with a load of 12.5 A, of which the charger draws 6 A.
abbrev house : CurrentInputs
house = record {
  hour = 12;
  max_current = 16_000;
  main_breaker = some 20_000;
  live_max_phase = some 12_500;
  own_draw = some 6000;
  worst_case_load = none;
  reserve = some 1000;
  night_start = 23;
  night_end = 5;
  night_margin = none;
  daytime_fraction = none;
  min_current = none;
}

live_budget : (resolve_current_budget house).value ≡ 12_500
unfolding resolve_current_budget ladder live_rung settle ◌+ℤ◌ ◌-ℤ◌ min_ℤ max_ℤ
live_budget = refl

static_budget : (resolve_current_budget (record house { live_max_phase = none })).value ≡ 10_000
unfolding resolve_current_budget ladder static_rung settle is_night ◌+ℤ◌ ◌-ℤ◌ min_ℤ max_ℤ
static_budget = refl

resolve_current_budget_safe_example :
    let v = (resolve_current_budget house).value in
    IsBudget house v × ((v ≡ 0) ⊎ (v + 1000 + 12_500 ≤ 20_000 + 6000))
resolve_current_budget_safe_example = resolve_current_budget_safe house (omega arith)

-- 6 A offered and refused.
abbrev refused : ℕ → CompleteInput
refused t = record {
  connected = true;
  climate_active = false;
  delivered = 4000;
  commanded_a = 6000;
  drawing_a = 0;
  required = 500;
  pause_on_target = true;
  zero_draw_since = some 0;
  now = t;
}

completes_when_refused :
    (resolve_session_complete (refused 61_000) session_complete).complete ≡ true
unfolding resolve_session_complete
completes_when_refused = refl

-- The car "vw" claims the plug, and the user picked "guest" before.
abbrev plugged : String → Option Bool
plugged name = if str_eq name "vw" then some true else none

abbrev drive : ActiveVehicleInput
drive = record {
  candidates = "bmw" ∷ "vw" ∷ [];
  connected = true;
  plugged_in = plugged;
  vehicle_override = some "guest";
  latched = none;
}

claim_wins : resolve_active_vehicle drive ≡ some "vw"
unfolding resolve_active_vehicle truthy positive_claimant claimants_of
claim_wins = refl

-- A night of two hours ahead, in the zone of UTC.
abbrev no_tariff : PriceInputs
no_tariff = record {
  live_prices = some [];
  historical_avg = none;
  now = 5_000_000;
  process_wall = λ t. t;
  target_time = 12_000_000;
  night_start = 0;
  night_end = 2;
  local_hour = λ t. t / 3_600_000;
  night_price = none;
  day_price = none;
}

resolve_price_curve-IsPriced_example :
    ((prices : List TariffSlot)
      → non_empty no_tariff.live_prices ≡ some prices
      → (resolve_price_curve no_tariff).value ≡ prices)
    × (non_empty no_tariff.live_prices ≡ none
        → IsPriced
            (hour_top no_tariff)
            (Costs no_tariff none)
            (resolve_price_curve no_tariff).value
            8_000_000)
resolve_price_curve-IsPriced_example =
    resolve_price_curve-IsPriced no_tariff 8_000_000 (omega arith) (omega arith)

night_then_day :
    map (λ p. p.price) (resolve_price_curve no_tariff).value ≡ pos 1 ∷ pos 2 ∷ pos 2 ∷ []
unfolding resolve_price_curve price_ladder build_hourly_curve curve_from is_night
night_then_day = refl

-- Two samples at six o'clock on different days, an invalid one, and one of another hour.
abbrev week : Samples
week =
    (10, 6, some (pos 9_000))
    ∷ (11, 6, some (pos 12_000))
    ∷ (11, 6, none)
    ∷ (11, 7, some (pos 20_000))
    ∷ []

worst_at_six : worst_case_load (record_all week []) 6 10 ≡ some 12_000
unfolding worst_case_load record_household_load upsert
worst_at_six = refl
