-- ===== src/Ocpp/Station.antt =====
-- src/modules/charger-ocpp16/server.ts: the OCPP server and its handlers. A socket is the number of its
-- connection; the object that its handlers close over stays when the station is evicted or connects
-- anew. What a handler sends or tells its subscribers is a list of effects. Amps are in mA. The time of
-- the first contact, and commands that only pass on an answer, are left out.
pub mod Sockets
pub mod Handlers
pub mod Plug
pub mod Reconnect
mod Tests
use open_smart_charge.Base.{
  ℕ, zero, suc, ◌+◌, Bool, true, false, ◌&&◌, not, Option, none, some, String, List, [], ◌∷◌, ◌++◌,
  ◌==◌, get_or_else, is_some, if◌then◌else◌, length, get_elem?, count_by,
}
use open_smart_charge.Base.Dict.{Dict, get, put, remove}
use open_smart_charge.Charger.{
  Connector, ChargerStatus, available, charging, finishing, unavailable,
}
use open_smart_charge.Health.{Health}
use open_smart_charge.Ocpp.Readings.{MeterValue, LatestReadings, latest_readings}
use open_smart_charge.Ocpp.Status.{
  compute_connection_state, should_auto_start_transaction, compute_health,
}
use open_smart_charge.Ocpp.Transactions.{
  Db, StartTransactionReq, StopTransactionReq, allocate_transaction_id, insert_transaction,
  find_open_transaction, finish_transaction, close_open_transaction, insert_meter_values,
  latest_energy,
}

-- `StationState`, with the station that its socket named.
pub record Station : Type 0 where
  pub station_id : String
  pub active : Option ℕ
  pub connector_id : ℕ
  pub auto_start : Bool
  pub has_auto_started : Bool

pub record PendingInfo : Type 0 where
  pub vendor : Option String
  pub model : Option String
  pub last_status : Option Connector

pub record Server : Type 0 where
  pub db : Db
  pub registered : Dict Bool
  pub loadpoint_names : Dict String
  pub phases : Dict ℕ
  pub last_limit : Dict ℕ
  pub max_stack : Dict ℕ
  pub pending_info : Dict PendingInfo
  pub stations : Dict ℕ
  pub sockets : List Station

pub data Command : Type 0 where
  set_charging_profile : (amps connector_id stack_level phases : ℕ) → Command
  remote_start_transaction : (id_tag : String) (connector_id : ℕ) → Command
  remote_stop_transaction : (transaction_id : ℕ) → Command
  trigger_status_notification : (connector_id : ℕ) → Command

-- A status for the subscribers of a station, or a call to a socket.
pub data Effect : Type 0 where
  push : (station_id : String) (connector_id : ℕ) (status : ChargerStatus) → Effect
  send : (client : ℕ) (command : Command) → Effect

abbrev pub update_at : ℕ → (Station → Station) → List Station → List Station
update_at n f [] = []
update_at zero f (s ∷ ss) = f s ∷ ss
update_at (suc n) f (s ∷ ss) = s ∷ update_at n f ss

abbrev pub with_client : Option ℕ → (Station → Station) → List Station → List Station
with_client none f sockets = sockets
with_client (some n) f sockets = update_at n f sockets

unfoldable pub register_station : Server → String → Bool → Server
register_station srv id auto_start = record srv {
  registered = put srv.registered id auto_start;
  sockets =
      with_client (get srv.stations id) (λ s. record s { auto_start = auto_start }) srv.sockets;
}

unfoldable pub unregister_station : Server → String → Server
unregister_station srv id = record srv {
  registered = remove srv.registered id;
  loadpoint_names = remove srv.loadpoint_names id;
  phases = remove srv.phases id;
  sockets = with_client (get srv.stations id) (λ s. record s { auto_start = false }) srv.sockets;
}

unfoldable pub set_loadpoint_name : Server → String → String → Server
set_loadpoint_name srv id name = record srv { loadpoint_names = put srv.loadpoint_names id name }

unfoldable pub set_station_phases : Server → String → ℕ → Server
set_station_phases srv id phases = record srv { phases = put srv.phases id phases }

abbrev pub profile : Server → String → ℕ → ℕ → Command
profile srv id connector_id amps =
    set_charging_profile amps connector_id (get_or_else (get srv.max_stack id) 1)
      (get_or_else (get srv.phases id) 3)

-- The socket of a station and the state behind it.
abbrev pub station_of : Server → String → Option (ℕ × Station)
station_of srv id = elim (get srv.stations id) [
  | none ↦ none
  | some n ↦ elim (get_elem? srv.sockets n) [ none ↦ none | some s ↦ some (n, s) ]
]

-- The limit is remembered also when the station is not connected.
unfoldable pub set_limit : Server → String → ℕ → Server × List Effect
set_limit srv id amps = (
  record srv { last_limit = put srv.last_limit id amps },
  elim (station_of srv id) [
    | none ↦ []
    | some c ↦ send c.0 (profile srv id c.1.connector_id amps) ∷ []
  ],
)

-- The two commands throw if the station is not connected, and the second if it has no transaction.
unfoldable pub remote_start : Server → String → String → Option (List Effect)
remote_start srv id id_tag = elim (station_of srv id) [
  | none ↦ none
  | some c ↦ some (send c.0 (remote_start_transaction id_tag c.1.connector_id) ∷ [])
]

abbrev pub active_of : Option ℕ → Option ℕ
active_of none = none
active_of (some zero) = none
active_of (some (suc n)) = some (suc n)

unfoldable pub remote_stop : Server → String → Option (List Effect)
remote_stop srv id = elim (station_of srv id) [
  | none ↦ none
  | some c ↦ elim (active_of c.1.active) [
    | none ↦ none
    | some t ↦ some (send c.0 (remote_stop_transaction t) ∷ [])
  ]
]

unfoldable pub get_health : Server → Health
get_health srv =
    compute_health (length srv.registered)
      (count_by (λ c. is_some (get srv.registered c.0)) srv.stations)

abbrev unclaimed : Dict Bool → Dict ℕ → List String
unclaimed registered [] = []
unclaimed registered (c ∷ cs) =
    if is_some (get registered c.0) then unclaimed registered cs else c.0 ∷ unclaimed registered cs

-- The names of `listPending`.
unfoldable pub list_pending : Server → List String
list_pending srv = unclaimed srv.registered srv.stations

abbrev pub a_status : Connector → Bool → Bool → ChargerStatus
a_status status connected is_charging = record {
  status = status;
  connected = connected;
  charging = is_charging;
  current_a = none;
  power_w = none;
  session_energy = none;
}
