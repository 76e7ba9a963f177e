-- ===== src/Ocpp/Station/Sockets.antt =====
-- The life of a socket in server.ts: it connects, perhaps in place of an older one, and disconnects.
use open_smart_charge.Base.{
  ℕ, Bool, true, false, Option, none, some, String, List, [], ◌∷◌, ◌++◌, ◌==◌, get_or_else,
  if◌then◌else◌, length, get_elem?,
}
use open_smart_charge.Base.Dict.{get, put, remove}
use open_smart_charge.Charger.{available, unavailable}
use open_smart_charge.Ocpp.Transactions.{find_open_transaction}
use open_smart_charge.Ocpp.Station.{Station, Server, Effect, push, set_limit, a_status}

-- `attachClient`: the new socket is the next number.
unfoldable pub attach_client : Server → String → Server
attach_client srv id = record srv {
  pending_info =
      put srv.pending_info id (record { vendor = none; model = none; last_status = none });
  stations = put srv.stations id (length srv.sockets);
  sockets =
      srv.sockets
      ++ (record {
        station_id = id;
        active = find_open_transaction srv.db id;
        connector_id = 1;
        auto_start = get_or_else (get srv.registered id) false;
        has_auto_started = false;
      }
          ∷ []);
}

abbrev pub is_client : Option ℕ → ℕ → Bool
is_client none n = false
is_client (some m) n = m == n

abbrev pub evict : Station → ℕ → Server → Server × List Effect
evict s n srv =
    if is_client (get srv.stations s.station_id) n
    then (
      record srv {
        stations = remove srv.stations s.station_id;
        pending_info = remove srv.pending_info s.station_id;
      },
      push s.station_id s.connector_id (a_status unavailable false false) ∷ [],
    )
    else (srv, [])

-- The handler of `disconnect`.
unfoldable pub disconnect : Server → ℕ → Server × List Effect
disconnect srv n = elim (get_elem? srv.sockets n) [ none ↦ (srv, []) | some s ↦ evict s n srv ]

abbrev pub reassert : Option ℕ → Server → String → Server × List Effect
reassert none srv id = (srv, [])
reassert (some amps) srv id = set_limit srv id amps

abbrev pub stack_known : Option ℕ → Server → String → Server
stack_known none srv id = srv
stack_known (some max) srv id = record srv { max_stack = put srv.max_stack id max }

-- `onConnect`, from the answer about the stack level on: it is learnt, and the last commanded limit is
-- sent again.
unfoldable pub on_connect : Server → String → Option ℕ → Server × List Effect
on_connect srv id max =
    let srv' = stack_known max srv id in reassert (get srv'.last_limit id) srv' id

-- Its end: a charger that refuses the trigger is reported as connected.
unfoldable pub trigger_refused : Server → ℕ → List Effect
trigger_refused srv n = elim (get_elem? srv.sockets n) [
  | none ↦ []
  | some s ↦ push s.station_id s.connector_id (a_status available true false) ∷ []
]
