-- ===== src/Ocpp/Transactions.antt =====
-- src/modules/charger-ocpp16/persistence.ts: the tables of transactions and meter values, and the
-- counter of transaction ids. Times are numbers in the order of their texts, energies are in mWh.
pub mod Rows
pub mod Ids
mod Tests
use open_smart_charge.Base.{
  ℕ, zero, suc, ◌+◌, ◌-◌, max, Bool, true, false, ◌&&◌, ◌||◌, not, Option, none, some, String, List,
  [], ◌∷◌, ◌++◌, map, ◌==◌, leb, get_or_else, is_some, if◌then◌else◌, find_by, any_by, str_eq,
}
use open_smart_charge.Base.Int.{ℤ, pos, ◌-ℤ◌}
use open_smart_charge.Ocpp.Readings.{MeterValue, ParsedMeterValue, parse_meter_value}

pub record Transaction : Type 0 where
  pub id : ℕ
  pub loadpoint_name : String
  pub station_id : String
  pub start_time : ℕ
  pub end_time : Option ℕ
  pub energy : Option ℤ
  pub meter_start : Option ℕ
  pub id_tag : String

pub record MeterRow : Type 0 where
  pub transaction_id : ℕ
  pub measured_at : ℕ
  pub reading : ParsedMeterValue

-- `next_value` is missing if the table of the counter has no row.
pub record Db : Type 0 where
  pub next_value : Option ℕ
  pub transactions : List Transaction
  pub meter_values : List MeterRow

pub record StartTransactionReq : Type 0 where
  pub connector_id : ℕ
  pub id_tag : String
  pub meter_start : ℕ
  pub timestamp : ℕ

pub record StopTransactionReq : Type 0 where
  pub transaction_id : ℕ
  pub meter_stop : ℕ
  pub timestamp : ℕ

abbrev update_counter : Option ℕ → ℕ → Option ℕ
update_counter none n = none
update_counter (some old) n = some n

unfoldable pub allocate_transaction_id : Db → Db × ℕ
allocate_transaction_id db =
    let id = get_or_else db.next_value 1 in
    (record db { next_value = update_counter db.next_value (id + 1) }, id)

abbrev pub find_transaction : ℕ → List Transaction → Option Transaction
find_transaction id rows = find_by (λ t. t.id == id) rows

abbrev pub row_of : String → String → ℕ → StartTransactionReq → Transaction
row_of loadpoint_name station_id id params = record {
  id = id;
  loadpoint_name = loadpoint_name;
  station_id = station_id;
  start_time = params.timestamp;
  end_time = none;
  energy = none;
  meter_start = some params.meter_start;
  id_tag = params.id_tag;
}

-- The insert throws if the id is taken.
unfoldable pub insert_transaction : Db → String → String → ℕ → StartTransactionReq → Option Db
insert_transaction db loadpoint_name station_id id params =
    if is_some (find_transaction id db.transactions)
    then none
    else some (record db {
      transactions = db.transactions ++ (row_of loadpoint_name station_id id params ∷ []);
    })

abbrev pub is_open : String → Transaction → Bool
is_open station_id t = str_eq t.station_id station_id && not (is_some t.end_time)

abbrev larger_id : ℕ → Option ℕ → Option ℕ
larger_id a none = some a
larger_id a (some b) = some (max a b)

-- `ORDER BY id DESC LIMIT 1` over the open transactions of a station.
unfoldable pub newest_open : String → List Transaction → Option ℕ
newest_open station_id [] = none
newest_open station_id (t ∷ ts) =
    let rest = newest_open station_id ts in
    if is_open station_id t then larger_id t.id rest else rest

unfoldable pub find_open_transaction : Db → String → Option ℕ
find_open_transaction db station_id = newest_open station_id db.transactions

-- `UPDATE transactions SET end_time = ?, energy_kwh = ? WHERE id = ?`
unfoldable pub end_rows : ℕ → ℕ → ℤ → List Transaction → List Transaction
end_rows id at energy [] = []
end_rows id at energy (t ∷ ts) =
    (if t.id == id then record t { end_time = some at; energy = some energy } else t)
    ∷ end_rows id at energy ts

abbrev pub start_of : Option Transaction → ℕ
start_of none = 0
start_of (some t) = get_or_else t.meter_start 0

unfoldable pub finish_transaction : Db → ℕ → StopTransactionReq → Db
finish_transaction db id params =
    let start = start_of (find_transaction id db.transactions) in
    record db {
      transactions =
          end_rows id params.timestamp (pos params.meter_stop -ℤ pos start) db.transactions;
    }

-- The newest register among the readings of a transaction that have one; of equal times the later
-- row of the table.
unfoldable pub latest_register : ℕ → List MeterRow → Option (ℕ × ℕ)
latest_register id [] = none
latest_register id (r ∷ rs) =
    let rest = latest_register id rs in
    if r.transaction_id == id
    then elim r.reading.energy [
      | none ↦ rest
      | some e ↦ elim rest [
        | none ↦ some (r.measured_at, e)
        | some later ↦ some (if leb r.measured_at later.0 then later else (r.measured_at, e))
      ]
    ]
    else rest

unfoldable pub latest_energy : Db → ℕ → ℕ
latest_energy db id = elim (latest_register id db.meter_values) [
  | none ↦ 0
  | some r ↦ r.1 - start_of (find_transaction id db.transactions)
]

abbrev is_ended : Transaction → Bool
is_ended t = is_some t.end_time

abbrev pub close_found : Option Transaction → Db → ℕ → ℕ → Db
close_found none db id now = db
close_found (some t) db id now =
    if is_ended t
    then db
    else record db { transactions = end_rows id now (pos (latest_energy db id)) db.transactions }

-- Closing at `now` a transaction that was left open.
unfoldable pub close_open_transaction : Db → ℕ → ℕ → Db
close_open_transaction db id now = close_found (find_transaction id db.transactions) db id now

abbrev rows_for : ℕ → List MeterValue → List MeterRow
rows_for id [] = []
rows_for id (mv ∷ mvs) =
    record { transaction_id = id; measured_at = mv.timestamp; reading = parse_meter_value mv }
    ∷ rows_for id mvs

-- A missing id and the id 0 are dropped.
unfoldable pub insert_meter_values : Db → Option ℕ → List MeterValue → Db
insert_meter_values db none mvs = db
insert_meter_values db (some zero) mvs = db
insert_meter_values db (some (suc n)) mvs = record db {
  meter_values = db.meter_values ++ rows_for (suc n) mvs;
}
