-- ===== src/Ocpp/Readings.antt =====
-- src/modules/charger-ocpp16/meter-parser.ts, with the messages of types.ts that it reads. A value is
-- what `parseFloat` makes of the text, in thousandths, and `none` for NaN; values below zero are not
-- modelled. Energies are in mWh, currents in mA.
use open_smart_charge.Base.{
  ℕ, ◌*◌, max, Bool, false, Option, none, some, String, List, [], ◌∷◌, if◌then◌else◌, find_by,
  str_eq,
}

pub record SampledValue : Type 0 where
  pub value : Option ℕ
  pub measurand : Option String
  pub unit : Option String

pub record MeterValue : Type 0 where
  pub timestamp : ℕ
  pub sampled_value : List SampledValue

pub record ParsedMeterValue : Type 0 where
  pub energy : Option ℕ
  pub power : Option ℕ
  pub current : Option ℕ
  pub voltage : Option ℕ
  pub soc : Option ℕ

abbrev pub is_text : Option String → String → Bool
is_text none t = false
is_text (some u) t = str_eq u t

abbrev pub sample_of : String → List SampledValue → Option SampledValue
sample_of measurand samples = find_by (λ s. is_text s.measurand measurand) samples

abbrev pub value_of : Option SampledValue → Option ℕ
value_of none = none
value_of (some s) = s.value

-- The register in Wh, unless the sample says kWh.
abbrev register_of : Option SampledValue → Option ℕ
register_of none = none
register_of (some s) = elim s.value [
  | none ↦ none
  | some v ↦ some (if is_text s.unit "kWh" then v * 1000 else v)
]

unfoldable pub parse_meter_value : MeterValue → ParsedMeterValue
parse_meter_value mv = record {
  energy = register_of (sample_of "Energy.Active.Import.Register" mv.sampled_value);
  power = value_of (sample_of "Power.Active.Import" mv.sampled_value);
  current = value_of (sample_of "Current.Import" mv.sampled_value);
  voltage = value_of (sample_of "Voltage" mv.sampled_value);
  soc = value_of (sample_of "SoC" mv.sampled_value);
}

pub record LatestReadings : Type 0 where
  pub current : Option ℕ
  pub power : Option ℕ

abbrev larger : Option ℕ → Option ℕ → Option ℕ
larger none b = b
larger (some a) none = some a
larger (some a) (some b) = some (max a b)

-- `Math.max(...currents)`, which is `none` if there are none.
unfoldable pub max_current : List SampledValue → Option ℕ
max_current [] = none
max_current (s ∷ ss) =
    let rest = max_current ss in
    if is_text s.measurand "Current.Import" then larger s.value rest else rest

abbrev pub or_older : Option ℕ → Option ℕ → Option ℕ
or_older none old = old
or_older (some v) old = some v

unfoldable pub read_all : LatestReadings → List MeterValue → LatestReadings
read_all out [] = out
read_all out (mv ∷ mvs) =
    read_all
      (record {
        current = or_older (max_current mv.sampled_value) out.current;
        power = or_older (value_of (sample_of "Power.Active.Import" mv.sampled_value)) out.power;
      })
      mvs

unfoldable pub latest_readings : List MeterValue → LatestReadings
latest_readings meter_value = read_all (record { current = none; power = none }) meter_value
