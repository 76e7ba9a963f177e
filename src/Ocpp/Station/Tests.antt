-- ===== src/Ocpp/Station/Tests.antt =====
-- The OCPP server at concrete inputs.
use open_smart_charge.Base.{
  ◌+◌, ◌≤◌, ◌≡◌, refl, true, false, none, some, List, [], ◌∷◌, arith, if◌then◌else◌, length,
  get_elem?, count_by, ltb,
}
use open_smart_charge.Base.Dict.{get, remove}
use open_smart_charge.Charger.{available, preparing, charging, suspended_ev, unavailable}
use open_smart_charge.Health.{Health}
use open_smart_charge.Ocpp.Status.{
  compute_health, compute_connection_state, should_auto_start_transaction,
}
use open_smart_charge.Ocpp.Transactions.{Transaction}
use open_smart_charge.Ocpp.Transactions.Ids.{IsSound, Closes}
use open_smart_charge.Ocpp.Station.{
  Station, Server, push, send, remote_stop_transaction, a_status, unregister_station, remote_start,
  remote_stop, get_health, list_pending,
}
use open_smart_charge.Ocpp.Station.Sockets.{attach_client, disconnect}
use open_smart_charge.Ocpp.Station.Handlers.{
  status_notification, Message, status, serve, handle, notified, settled, auto_starts,
}
use open_smart_charge.Ocpp.Station.Plug.{is_start, serve_once, unplug_settles}
use open_smart_charge.Ocpp.Station.Reconnect.{disconnect-attach_client}

abbrev zaptec : Station
zaptec = record {
  station_id = "ZAP1";
  active = some 3;
  connector_id = 1;
  auto_start = true;
  has_auto_started = false;
}

abbrev session : Transaction
session = record {
  id = 3;
  loadpoint_name = "garage";
  station_id = "ZAP1";
  start_time = 1_000;
  end_time = none;
  energy = none;
  meter_start = some 0;
  id_tag = "osc-auto";
}

abbrev connected : Server
connected = record {
  db = record { next_value = some 4; transactions = session ∷ []; meter_values = [] };
  registered = ("ZAP1", true) ∷ [];
  loadpoint_names = [];
  phases = [];
  last_limit = [];
  max_stack = [];
  pending_info = [];
  stations = ("ZAP1", 0) ∷ [];
  sockets = zaptec ∷ [];
}

connected-IsSound : IsSound connected.db
connected-IsSound = record { next = 4; counter = refl; below = (omega arith, tt); keyed = (tt, tt) }

-- The same charger without a transaction.
abbrev idle : Server
idle = record connected { sockets = record zaptec { active = none } ∷ [] }

abbrev full_car : List Message
full_car =
    status 1 1 preparing ∷ status 2 1 charging ∷ status 3 1 suspended_ev ∷ status 4 1 preparing ∷ []

serve_once_example :
    count_by is_start (serve 6_000 idle 0 full_car).1 + (if false then 1 else 0) ≤ 1
serve_once_example =
    serve_once 6_000 idle 0 (record zaptec { active = none }) full_car refl
      (refl, (refl, (refl, (refl, tt))))

one_start : count_by is_start (serve 6_000 idle 0 full_car).1 ≡ 1
unfolding serve handle status_notification notified settled auto_starts compute_connection_state
    should_auto_start_transaction
one_start = refl

unplug_settles_example :
    let srv' = (status_notification connected 0 zaptec 9_000 1 available).0 in
    Closes connected.db 3 srv'.db
    × (get_elem? srv'.sockets 0
        ≡ some (record zaptec {
          active = none;
          has_auto_started = false;
          connector_id = if ltb 0 1 then 1 else zaptec.connector_id;
        }))
unplug_settles_example = unplug_settles connected 0 zaptec 9_000 1 3 refl refl connected-IsSound

disconnect-attach_client_example :
    let srv' = attach_client connected "ZAP1" in
    (disconnect srv' 0 ≡ (srv', []))
    × (get (disconnect srv' (length connected.sockets)).0.stations "ZAP1" ≡ none)
    × ((disconnect srv' (length connected.sockets)).1
        ≡ push "ZAP1" 1 (a_status unavailable false false) ∷ [])
disconnect-attach_client_example = disconnect-attach_client connected 0 zaptec refl

claimed_only : list_pending (unregister_station connected "ZAP1") ≡ "ZAP1" ∷ []
unfolding list_pending unregister_station get remove
claimed_only = refl

all_well : get_health connected ≡ Health.ok
unfolding get_health compute_health get
all_well = refl

stops : remote_stop connected "ZAP1" ≡ some (send 0 (remote_stop_transaction 3) ∷ [])
unfolding remote_stop get
stops = refl

not_there : remote_start connected "ZAP2" "osc-manual" ≡ none
unfolding remote_start get
not_there = refl
