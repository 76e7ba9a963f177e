-- ===== src/Lifecycle/Meter/Tests.antt =====
-- Snapshots of a day, with their witness.
use open_smart_charge.Base.{ℕ, ◌/◌, ◌%◌, ◌≤◌, ◌≡◌, refl, none, some, List, [], ◌∷◌, length, arith}
use open_smart_charge.Base.Int.{pos, negsuc}
use open_smart_charge.PowerHistory.Window.{IsWindow}
use open_smart_charge.SmartCharging.Rollup.{LoadRow, larger, highest, worst_case_load}
use open_smart_charge.Lifecycle.Meter.{Clock, Event, at_start, on_all, round_w}
use open_smart_charge.Lifecycle.Meter.Rollup.{
  samples, IsCalendar, first_day, on_meter_snapshots_refine,
}

rounds_half_up : round_w (pos 1_500) ≡ pos 2 × (round_w (negsuc 1_499) ≡ negsuc 0)
unfolding round_w
rounds_half_up = (refl, refl)

abbrev utc : Clock
utc = record { date_of = λ t. t / 86_400_000; hour_of = λ t. t / 3_600_000 % 24 }

utc-IsCalendar : IsCalendar utc
utc-IsCalendar = record { onwards = λ s t h. omega (arith, h) }

abbrev snapshot_at : ℕ → ℕ → Event
snapshot_at t load = record {
  snapshot = record {
    name = "house";
    timestamp = t;
    power = none;
    i1 = some (pos load);
    i2 = none;
    i3 = some (negsuc 999);
  };
  reader = none;
  powers = 1_000_000 ∷ 500_000 ∷ [];
  now = t;
}

abbrev events : List Event
events = snapshot_at 863_999_000 9_000 ∷ snapshot_at 864_000_000 6_000 ∷ []

abbrev old_rows : List LoadRow
old_rows = record { date = 0; hour = 0; max_phase = 20_000 } ∷ []

on_meter_snapshots_refine_example :
    let h = on_all utc 2 (some "house") events (at_start [] old_rows) in
    (worst_case_load h.rollup 0 (first_day utc 864_010_000 2)
      ≡ larger
          (highest (samples utc events) 0 (first_day utc 864_010_000 2))
          (worst_case_load old_rows 0 (first_day utc 864_010_000 2)))
    × IsWindow h.power_history
    × (length h.power_history ≤ 91)
on_meter_snapshots_refine_example =
    on_meter_snapshots_refine utc 2 0 864_010_000 (some "house") events [] old_rows utc-IsCalendar
      (omega arith) (omega arith, (omega arith, tt))
