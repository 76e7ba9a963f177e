-- ===== src/Ocpp/Station/Handlers.antt =====
-- The handlers of the OCPP messages in server.ts, for the object of one socket.
use open_smart_charge.Base.{
  ℕ, Bool, true, false, Option, none, some, String, List, [], ◌∷◌, ◌++◌, ltb, get_or_else, is_some,
  if◌then◌else◌, get_elem?,
}
use open_smart_charge.Base.Dict.{Dict, get, put}
use open_smart_charge.Charger.{Connector, available, charging, finishing}
use open_smart_charge.Ocpp.Readings.{MeterValue, latest_readings}
use open_smart_charge.Ocpp.Status.{compute_connection_state, should_auto_start_transaction}
use open_smart_charge.Ocpp.Transactions.{
  Db, StartTransactionReq, StopTransactionReq, allocate_transaction_id, insert_transaction,
  finish_transaction, close_open_transaction, insert_meter_values, latest_energy,
}
use open_smart_charge.Ocpp.Station.{
  Station, PendingInfo, Server, Effect, push, send, remote_start_transaction, update_at, profile,
  active_of, a_status,
}

abbrev pub is_available : Connector → Bool
is_available available = true
is_available _ = false

abbrev status_seen : Option PendingInfo → Dict PendingInfo → String → Connector → Dict PendingInfo
status_seen none infos id status = infos
status_seen (some info) infos id status = put infos id (record info { last_status = some status })

abbrev pub close_stale : Option ℕ → Db → ℕ → Db
close_stale none db now = db
close_stale (some stale) db now = close_open_transaction db stale now

-- The object after the part of the handler that runs before the status is pushed.
unfoldable pub settled : Station → ℕ → Connector → Station
settled s connector_id status =
    let s' : Station = record s {
      connector_id = if ltb 0 connector_id then connector_id else s.connector_id;
    } in
    if is_available status then record s' { active = none; has_auto_started = false } else s'

-- Whether the handler starts a transaction.
unfoldable pub auto_starts : Station → Connector → Bool
auto_starts s status =
    should_auto_start_transaction status (is_some (active_of s.active)) s.auto_start
      s.has_auto_started

-- The object after the whole handler.
unfoldable pub notified : Station → ℕ → Connector → Station
notified s connector_id status =
    let s' = settled s connector_id status in
    if auto_starts s' status then record s' { has_auto_started = true } else s'

-- The handler of `StatusNotification` at `now`, on the object `s` of the socket `n`.
unfoldable pub status_notification : Server → ℕ → Station → ℕ → ℕ → Connector → Server × List Effect
status_notification srv n s now connector_id status =
    let (is_charging, connected) = compute_connection_state status in
    (
      record srv {
        pending_info =
            status_seen (get srv.pending_info s.station_id) srv.pending_info s.station_id status;
        db = if is_available status then close_stale s.active srv.db now else srv.db;
        sockets = update_at n (λ o. notified o connector_id status) srv.sockets;
      },
      push s.station_id connector_id (a_status status connected is_charging)
          ∷ (if auto_starts (settled s connector_id status) status
              then send n (remote_start_transaction "osc-auto" connector_id) ∷ []
              else []),
    )

abbrev pub adopted : Option ℕ → Option ℕ → Option ℕ
adopted none old = old
adopted (some t) old = some t

-- The handler of `MeterValues`: the charger's transaction id is adopted.
unfoldable pub meter_values :
    Server → ℕ → Station → ℕ → Option ℕ → List MeterValue → Server × List Effect
meter_values srv n s connector_id transaction_id mvs =
    let active = adopted transaction_id s.active in
    let db = insert_meter_values srv.db active mvs in
    let latest = latest_readings mvs in
    (
      record srv { db = db; sockets = update_at n (λ o. record o { active = active }) srv.sockets },
      elim (active_of active) [
        | none ↦ []
        | some t ↦
            push s.station_id connector_id (record (a_status charging true true) {
              current_a = latest.current;
              power_w = latest.power;
              session_energy = some (latest_energy db t);
            })
            ∷ []
      ],
    )

abbrev pub started :
    Server → ℕ → Station → StartTransactionReq → ℕ → Option Db → Server × Option (List Effect × ℕ)
started srv n s params id none = (srv, none)
started srv n s params id (some db) = (
  record srv { db = db; sockets = update_at n (λ o. record o { active = some id }) srv.sockets },
  some (
    push s.station_id params.connector_id
          (record (a_status charging true true) { session_energy = some 0 })
        ∷ [],
    id,
  ),
)

-- The handler of `StartTransaction`, with the id of the answer; `none` if the insert throws, when the
-- counter has moved on already.
unfoldable pub start_transaction :
    Server → ℕ → Station → StartTransactionReq → Server × Option (List Effect × ℕ)
start_transaction srv n s params =
    let (counted, id) = allocate_transaction_id srv.db in
    let name = get_or_else (get srv.loadpoint_names s.station_id) s.station_id in
    started (record srv { db = counted }) n s params id
      (insert_transaction counted name s.station_id id params)

-- The handler of `StopTransaction`.
unfoldable pub stop_transaction : Server → ℕ → Station → StopTransactionReq → Server × List Effect
stop_transaction srv n s params = (
  record srv {
    db = finish_transaction srv.db params.transaction_id params;
    sockets = update_at n (λ o. record o { active = none }) srv.sockets;
  },
  push s.station_id s.connector_id
        (record (a_status finishing true false) { session_energy = some 0 })
      ∷ [],
)

abbrev boot_seen :
    Option PendingInfo → Dict PendingInfo → String → String → String → Dict PendingInfo
boot_seen none infos id vendor model = infos
boot_seen (some info) infos id vendor model =
    put infos id (record info { vendor = some vendor; model = some model })

-- The handler of `BootNotification`: the station is set to the default current at once.
unfoldable pub boot_notification : Server → ℕ → Station → ℕ → String → String → Server × List Effect
boot_notification srv n s default_boot_current vendor model = (
  record srv {
    pending_info =
        boot_seen (get srv.pending_info s.station_id) srv.pending_info s.station_id vendor model;
  },
  send n (profile srv s.station_id s.connector_id default_boot_current) ∷ [],
)

-- The messages of a socket whose handlers change the server.
pub data Message : Type 0 where
  status : (now connector_id : ℕ) (status : Connector) → Message
  meter : (connector_id : ℕ) (transaction_id : Option ℕ) (values : List MeterValue) → Message
  start : StartTransactionReq → Message
  stop : StopTransactionReq → Message
  boot : (vendor model : String) → Message

abbrev pub sent : Option (List Effect × ℕ) → List Effect
sent none = []
sent (some r) = r.0

unfoldable pub handle : ℕ → Server → ℕ → Station → Message → Server × List Effect
handle default srv n s (status now connector_id c) = status_notification srv n s now connector_id c
handle default srv n s (meter connector_id t mvs) = meter_values srv n s connector_id t mvs
handle default srv n s (start params) = let r = start_transaction srv n s params in (r.0, sent r.1)
handle default srv n s (stop params) = stop_transaction srv n s params
handle default srv n s (boot vendor model) = boot_notification srv n s default vendor model

abbrev pub handle_at : ℕ → Server → ℕ → Option Station → Message → Server × List Effect
handle_at default srv n none m = (srv, [])
handle_at default srv n (some s) m = handle default srv n s m

-- The messages of one socket in turn, with all effects. `default` is the boot current.
unfoldable pub serve : ℕ → Server → ℕ → List Message → Server × List Effect
serve default srv n [] = (srv, [])
serve default srv n (m ∷ ms) =
    let first = handle_at default srv n (get_elem? srv.sockets n) m in
    let rest = serve default first.0 n ms in (rest.0, first.1 ++ rest.1)
