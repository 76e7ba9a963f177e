-- ===== src/SmartCharging/Energy/Tests.antt =====
-- The energy ladder and the estimates at concrete inputs.
use open_smart_charge.Base.{◌≤◌, ◌≡◌, ◌↔◌, refl, true, none, some, arith, get_or_else}
use open_smart_charge.Plans.{km}
use open_smart_charge.SmartCharging.Energy.{
  EnergyInputs, Anchor, resolve_energy_target, by_soc, grid_energy, duty_energy, charge_rate_kw,
  target_to_soc, km_to_soc, estimate_soc, estimate_soc_since_anchor, observed_efficiency,
  target_kwh, duty_cycle, default_charging_efficiency,
}
use open_smart_charge.SmartCharging.Energy.Reaches.{
  resolve_energy_target_reaches, observed_efficiency-IsSafe,
}

-- A 77 kWh battery at 50 % that should reach 80 %.
abbrev half_full : EnergyInputs
half_full = record {
  estimated_soc = some 50_000;
  target_soc = some 80_000;
  battery_capacity = some 77_000;
  target_kwh = none;
  session_energy = 0;
  time_until_target = 28_800_000;
  max_current = 16_000;
  phases = 3;
  efficiency = none;
  duty_cycle = none;
}

needs : (resolve_energy_target half_full).value ≡ 25_109
unfolding resolve_energy_target by_soc grid_energy
needs = refl

-- Without a battery the fixed energy, less what was delivered, is asked for.
guest_needs :
    resolve_energy_target (record half_full {
      battery_capacity = none;
      target_kwh = some 10_000;
      session_energy = 4_000;
    })
    ≡ record { value = 6_000; source = target_kwh; is_degraded = true }
unfolding resolve_energy_target by_soc
guest_needs = refl

-- Eight hours at 16 A on three phases and 40 % duty.
nothing_known :
    resolve_energy_target (record half_full { battery_capacity = none })
    ≡ record { value = 35_328; source = duty_cycle; is_degraded = true }
unfolding resolve_energy_target by_soc duty_energy charge_rate_kw
nothing_known = refl

resolve_energy_target_reaches_example : ((resolve_energy_target half_full).value ≤ 25_109) ↔ (
    80_000 ≤ get_or_else (estimate_soc 50_000 25_109 (some 77_000) default_charging_efficiency) 0)
resolve_energy_target_reaches_example =
    resolve_energy_target_reaches half_full 50_000 80_000 77_000 25_109 (omega arith) (omega arith)
      (omega arith) refl refl refl

-- 200 km with a car that shows 300 km at 75 %.
fifty_percent :
    target_to_soc
      (record { unit = km; value = 200_000 })
      (record { soc = some 75_000; range = some 300_000; capacity = none })
    ≡ some 50_000
unfolding target_to_soc km_to_soc
fifty_percent = refl

abbrev plugged : Anchor
plugged = record { soc = 40_000; session_energy = 0 }

abbrev later : Anchor
later = record { soc = 50_000; session_energy = 8_500 }

nine_tenths : observed_efficiency plugged later (some 77_000) ≡ some 905
unfolding observed_efficiency
nine_tenths = refl

observed_efficiency-IsSafe_example :
    (700 ≤ 905)
    × (905 ≤ 980)
    × (get_or_else (estimate_soc_since_anchor 40_000 0 8_500 (some 77_000) 905) 0 ≤ 50_000)
observed_efficiency-IsSafe_example = observed_efficiency-IsSafe plugged later 77_000 905 nine_tenths
