-- ===== src/Ocpp/Transactions/Tests.antt =====
-- Transactions at concrete inputs.
use open_smart_charge.Base.{◌≡◌, refl, none, some, String, [], ◌∷◌, arith, if◌then◌else◌, str_eq}
use open_smart_charge.Ocpp.Readings.{
  MeterValue, parse_meter_value, latest_readings, read_all, max_current,
}
use open_smart_charge.Ocpp.Transactions.{
  Transaction, Db, StartTransactionReq, allocate_transaction_id, insert_transaction,
  find_transaction, find_open_transaction, newest_open, end_rows, finish_transaction,
  insert_meter_values, latest_energy, latest_register,
}
use open_smart_charge.Ocpp.Transactions.Ids.{IsSound, insert_transaction-allocate}

abbrev plugged_in : Transaction
plugged_in = record {
  id = 3;
  loadpoint_name = "garage";
  station_id = "ZAP1";
  start_time = 1_000;
  end_time = none;
  energy = none;
  meter_start = some 5_000_000;
  id_tag = "osc-auto";
}

abbrev one_open : Db
one_open = record { next_value = some 4; transactions = plugged_in ∷ []; meter_values = [] }

one_open-IsSound : IsSound one_open
one_open-IsSound = record { next = 4; counter = refl; below = (omega arith, tt); keyed = (tt, tt) }

abbrev next_car : StartTransactionReq
next_car = record {
  connector_id = 1;
  id_tag = "osc-auto";
  meter_start = 6_000_000;
  timestamp = 10_000;
}

insert_transaction-allocate_example :
    let (counted, id) = allocate_transaction_id one_open in
    (db' : Db) × (insert_transaction counted "garage" "ZAP1" id next_car ≡ some db')
    × IsSound db'
    × (find_transaction id one_open.transactions ≡ none)
    × ((other : String)
        → find_open_transaction db' other
          ≡ (if str_eq "ZAP1" other then some id else find_open_transaction one_open other))
insert_transaction-allocate_example =
    insert_transaction-allocate one_open "garage" "ZAP1" next_car one_open-IsSound

abbrev frame : MeterValue
frame = record {
  timestamp = 2_000;
  sampled_value =
      record {
        value = some 5_800;
        measurand = some "Energy.Active.Import.Register";
        unit = some "kWh";
      }
      ∷ record { value = some 9_900; measurand = some "Current.Import"; unit = some "A" }
      ∷ record { value = none; measurand = some "Current.Import"; unit = some "A" }
      ∷ record { value = some 10_100; measurand = some "Current.Import"; unit = some "A" }
      ∷ [];
}

session_energy : latest_energy (insert_meter_values one_open (some 3) (frame ∷ [])) 3 ≡ 800_000
unfolding latest_energy insert_meter_values latest_register parse_meter_value
session_energy = refl

largest_phase : (latest_readings (frame ∷ [])).current ≡ some 10_100
unfolding latest_readings read_all max_current
largest_phase = refl

finished :
    find_open_transaction
      (finish_transaction one_open 3
        (record { transaction_id = 3; meter_stop = 5_900_000; timestamp = 9_000 }))
      "ZAP1"
    ≡ none
unfolding finish_transaction find_open_transaction end_rows newest_open
finished = refl
