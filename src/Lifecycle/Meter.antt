-- ===== src/Lifecycle/Meter.antt =====
-- The listener of `meter.snapshot` in src/core/lifecycle.ts: the health of the reader, the highest load of
-- the hour with its daily pruning, and the sample for the power chart. Currents are in mA, powers in mW;
-- the chart holds whole watts. `date_of` and `hour_of` are what `Intl` says of an instant in the zone.
pub mod Rollup
mod Tests
use open_smart_charge.Base.{
  ℕ, max, ◌+◌, ◌-◌, ◌*◌, ◌/◌, Bool, true, false, not, ◌==◌, Option, none, some, String, List, [],
  ◌∷◌, ltb, leb, str_eq, if◌then◌else◌, get_or_else,
}
use open_smart_charge.Base.Int.{ℤ, pos, negsuc, pos_part, neg_part, sub_ℕ, ◌+ℤ◌}
use open_smart_charge.Base.Dict.{Dict, get}
use open_smart_charge.Health.{Health, HealthMap, update_health}
use open_smart_charge.PowerHistory.{PowerSample, push_power_sample}
use open_smart_charge.SmartCharging.Rollup.{LoadRow, record_household_load, prune_household_load}

-- `MeterSnapshot`, with the reader's name.
pub record MeterSnapshot : Type 0 where
  pub name : String
  pub timestamp : ℕ
  pub power : Option ℤ
  pub i1 : Option ℤ
  pub i2 : Option ℤ
  pub i3 : Option ℤ

-- The wall clock of the site.
pub record Clock : Type 0 where
  pub date_of : ℕ → ℕ
  pub hour_of : ℕ → ℕ

pub record House : Type 0 where
  pub health : HealthMap
  pub rollup : List LoadRow
  pub pruned_on : Option ℕ
  pub power_history : List PowerSample

abbrev pub zero_or : Option ℤ → ℤ
zero_or o = get_or_else o (pos 0)

-- `Math.max` of the phases, as far as it is above zero.
abbrev pub highest_phase : MeterSnapshot → ℕ
highest_phase s =
    max (pos_part (zero_or s.i1)) (max (pos_part (zero_or s.i2)) (pos_part (zero_or s.i3)))

-- `Math.round` of mW to W: halves go up.
unfoldable pub round_w : ℤ → ℤ
round_w (pos n) = pos ((n + 500) / 1000)
round_w (negsuc n) = if ltb n 500 then pos 0 else negsuc ((n - 500) / 1000)

unfoldable pub times_voltage : ℤ → ℤ
times_voltage i = sub_ℕ (pos_part i * 230) (neg_part i * 230)

-- The power of the house in mW.
abbrev pub total_of : MeterSnapshot → ℤ
total_of s = get_or_else s.power (times_voltage (zero_or s.i1 +ℤ zero_or s.i2 +ℤ zero_or s.i3))

unfoldable pub sum_of : List ℕ → ℕ
sum_of [] = 0
sum_of (p ∷ ps) = p + sum_of ps

abbrev pub is_same_day : Option ℕ → ℕ → Bool
is_same_day none day = false
is_same_day (some d) day = d == day

-- What a day's first sample prunes: the rows from before the days that are kept.
unfoldable pub prune_daily : Clock → ℕ → ℕ → House → House
prune_daily c historical_days t h = if is_same_day h.pruned_on (c.date_of t) then h else record h {
  pruned_on = some (c.date_of t);
  rollup = prune_household_load h.rollup (c.date_of (t - (historical_days + 4) * 86_400_000));
}

unfoldable pub note_load : Clock → ℕ → MeterSnapshot → House → House
note_load c historical_days s h =
    if ltb 0 (highest_phase s)
    then prune_daily c historical_days s.timestamp (record h {
      rollup =
          record_household_load h.rollup (c.date_of s.timestamp) (c.hour_of s.timestamp)
            (some (pos (highest_phase s)));
    })
    else h

abbrev pub with_health : HealthMap → Option Health → String → ℕ → HealthMap
with_health m none name now = m
with_health m (some x) name now = update_health m name x now

-- What the listener finds: the reader's health, the powers of the loadpoints, and the time.
pub record Event : Type 0 where
  pub snapshot : MeterSnapshot
  pub reader : Option Health
  pub powers : List ℕ
  pub now : ℕ

abbrev pub is_house : Option String → String → Bool
is_house none name = false
is_house (some m) name = str_eq name m

unfoldable pub note_power : Option String → Event → List PowerSample → List PowerSample
note_power house_meter e buf =
    if is_house house_meter e.snapshot.name
    then push_power_sample buf (round_w (total_of e.snapshot)) ((sum_of e.powers + 500) / 1000)
        e.snapshot.timestamp
    else buf

unfoldable pub on_meter_snapshot : Clock → ℕ → Option String → Event → House → House
on_meter_snapshot c historical_days house_meter e h =
    let h' =
      note_load c historical_days e.snapshot
        (record h { health = with_health h.health e.reader e.snapshot.name e.now }) in
    record h' { power_history = note_power house_meter e h'.power_history }

abbrev pub at_start : HealthMap → List LoadRow → House
at_start m rows = record { health = m; rollup = rows; pruned_on = none; power_history = [] }

unfoldable pub on_all : Clock → ℕ → Option String → List Event → House → House
on_all c historical_days house_meter [] h = h
on_all c historical_days house_meter (e ∷ es) h =
    on_all c historical_days house_meter es (on_meter_snapshot c historical_days house_meter e h)
