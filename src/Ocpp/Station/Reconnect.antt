-- ===== src/Ocpp/Station/Reconnect.antt =====
-- A station that connects anew: the old socket's end does not touch it, and its limit is sent again.
use open_smart_charge.Base.{
  ℕ, zero, suc, ◌<◌, ◌≡◌, refl, ap, ◌∙◌, true, false, Option, none, some, String, List, [], ◌∷◌,
  ◌++◌, arith, get_or_else, length, get_elem?, eq_iff,
}
use open_smart_charge.Base.Dict.{get, get-put, get-remove}
use open_smart_charge.Charger.{unavailable}
use open_smart_charge.Ocpp.Transactions.{find_open_transaction}
use open_smart_charge.Ocpp.Station.{
  Station, Server, push, send, set_charging_profile, set_limit, a_status, profile, station_of,
}
use open_smart_charge.Ocpp.Station.Sockets.{
  evict, is_client, stack_known, reassert, attach_client, disconnect, on_connect,
}

get_elem?-append_old :
    (ss : List Station) (s x : Station) (n : ℕ)
    → get_elem? ss n ≡ some s
    → get_elem? (ss ++ (x ∷ [])) n ≡ some s
get_elem?-append_old [] s x n e = absurd cc
get_elem?-append_old (y ∷ ss) s x zero e = e
get_elem?-append_old (y ∷ ss) s x (suc n) e = get_elem?-append_old ss s x n e

get_elem?-append_new :
    (ss : List Station) (x : Station) → get_elem? (ss ++ (x ∷ [])) (length ss) ≡ some x
get_elem?-append_new [] x = refl
get_elem?-append_new (y ∷ ss) x = get_elem?-append_new ss x

get_elem?-below :
    (ss : List Station) (s : Station) (n : ℕ) → get_elem? ss n ≡ some s → n < length ss
get_elem?-below [] s n e = absurd cc
get_elem?-below (y ∷ ss) s zero e = omega arith
get_elem?-below (y ∷ ss) s (suc n) e = omega (arith, get_elem?-below ss s n e)

disconnect_known :
    (srv : Server) (n : ℕ) (s : Station)
    → get_elem? srv.sockets n ≡ some s
    → disconnect srv n ≡ evict s n srv
unfolding disconnect
disconnect_known srv n s e = rw (e, disconnect) refl

evict_stale :
    (srv : Server) (s : Station) (n m : ℕ)
    → get srv.stations s.station_id ≡ some m
    → n < m
    → evict s n srv ≡ (srv, [])
evict_stale srv s n m e lt =
    let other : is_client (get srv.stations s.station_id) n ≡ false = rw e (ground arith) in
    rw other refl

evict_current :
    (srv : Server) (s : Station) (n : ℕ)
    → get srv.stations s.station_id ≡ some n
    → (get (evict s n srv).0.stations s.station_id ≡ none)
      × ((evict s n srv).1
          ≡ push s.station_id s.connector_id (a_status unavailable false false) ∷ [])
evict_current srv s n e =
    let same : is_client (get srv.stations s.station_id) n ≡ true = rw e (ground arith) in
    rw same (
      get-remove srv.stations s.station_id s.station_id
          ∙ rw ((eq_iff s.station_id s.station_id).1 refl) refl,
      refl,
    )

get-attach_client :
    (srv : Server) (id : String)
    → get (attach_client srv id).stations id ≡ some (length srv.sockets)
unfolding attach_client
get-attach_client srv id =
    get-put srv.stations id id (length srv.sockets) ∙ rw ((eq_iff id id).1 refl) refl

abbrev fresh : Server → String → Station
fresh srv id = record {
  station_id = id;
  active = find_open_transaction srv.db id;
  connector_id = 1;
  auto_start = get_or_else (get srv.registered id) false;
  has_auto_started = false;
}

attach_client-old :
    (srv : Server) (id : String) (n : ℕ) (s : Station)
    → get_elem? srv.sockets n ≡ some s
    → get_elem? (attach_client srv id).sockets n ≡ some s
unfolding attach_client
attach_client-old srv id n s e = get_elem?-append_old srv.sockets s (fresh srv id) n e

attach_client-new :
    (srv : Server) (id : String)
    → get_elem? (attach_client srv id).sockets (length srv.sockets) ≡ some (fresh srv id)
unfolding attach_client
attach_client-new srv id = get_elem?-append_new srv.sockets (fresh srv id)

-- The end of an older socket, which comes after the station has connected anew, changes nothing and
-- tells nobody; the end of the new socket evicts the station and reports it as not connected.
pub disconnect-attach_client :
    (srv : Server) (n : ℕ) (s : Station)
    → get_elem? srv.sockets n ≡ some s
    → let srv' = attach_client srv s.station_id in
      (disconnect srv' n ≡ (srv', []))
      × (get (disconnect srv' (length srv.sockets)).0.stations s.station_id ≡ none)
      × ((disconnect srv' (length srv.sockets)).1
          ≡ push s.station_id 1 (a_status unavailable false false) ∷ [])
disconnect-attach_client srv n s e =
    let id = s.station_id in
    let new = length srv.sockets in
    let srv' = attach_client srv id in
    let here = get-attach_client srv id in
    let ended = disconnect_known srv' new (fresh srv id) (attach_client-new srv id) in
    let (gone, told) = evict_current srv' (fresh srv id) new here in
    (
      disconnect_known srv' n s (attach_client-old srv id n s e)
          ∙ evict_stale srv' s n new here (get_elem?-below srv.sockets s n e),
      ap (λ r. get r.0.stations id) ended ∙ gone,
      ap (λ r. r.1) ended ∙ told,
    )

set_limit_sends :
    (srv : Server) (id : String) (amps n : ℕ) (s : Station)
    → station_of srv id ≡ some (n, s)
    → (set_limit srv id amps).1 ≡ send n (profile srv id s.connector_id amps) ∷ []
unfolding set_limit
set_limit_sends srv id amps n s e = rw (e, set_limit) refl

get-set_limit :
    (srv : Server) (id : String) (amps : ℕ)
    → get (set_limit srv id amps).0.last_limit id ≡ some amps
unfolding set_limit
get-set_limit srv id amps = get-put srv.last_limit id id amps ∙ rw ((eq_iff id id).1 refl) refl

station_of-stack_known :
    (max : Option ℕ) (srv : Server) (id : String)
    → station_of (stack_known max srv id) id ≡ station_of srv id
station_of-stack_known none srv id = refl
station_of-stack_known (some m) srv id = refl

profile-stack_known :
    (max : Option ℕ) (srv : Server) (id : String) (c amps : ℕ)
    → profile (stack_known max srv id) id c amps
      ≡ set_charging_profile amps c
          (get_or_else max (get_or_else (get srv.max_stack id) 1))
          (get_or_else (get srv.phases id) 3)
profile-stack_known none srv id c amps = refl
profile-stack_known (some m) srv id c amps =
    rw (get-put srv.max_stack id id m) (rw ((eq_iff id id).1 refl) refl)

on_connect_sends :
    (max : Option ℕ) (srv : Server) (id : String) (amps n : ℕ) (s : Station)
    → get srv.last_limit id ≡ some amps
    → station_of srv id ≡ some (n, s)
    → (on_connect srv id max).1
      ≡ send n (
          set_charging_profile amps s.connector_id
            (get_or_else max (get_or_else (get srv.max_stack id) 1))
            (get_or_else (get srv.phases id) 3))
        ∷ []
unfolding on_connect
on_connect_sends none srv id amps n s last here =
    ap (λ o. (reassert o srv id).1) last ∙ set_limit_sends srv id amps n s here
on_connect_sends (some m) srv id amps n s last here =
    let srv' = stack_known (some m) srv id in
    ap (λ o. (reassert o srv' id).1) last
    ∙ set_limit_sends srv' id amps n s here
    ∙ ap (λ c. send n c ∷ []) (profile-stack_known (some m) srv id s.connector_id amps)

station_of-attach_client :
    (srv : Server) (id : String)
    → station_of (attach_client srv id) id ≡ some (length srv.sockets, fresh srv id)
station_of-attach_client srv id =
    rw (get-attach_client srv id, attach_client-new srv id, station_of) refl

-- A limit that was commanded at any time, also while the station was not connected, is sent to the new
-- socket when the station connects, at the stack level that the charger answers or else the known one.
pub on_connect-attach_client :
    (srv : Server) (id : String) (amps : ℕ) (max : Option ℕ)
    → let srv' = attach_client (set_limit srv id amps).0 id in
      (on_connect srv' id max).1
      ≡ send (length srv.sockets) (
          set_charging_profile amps 1
            (get_or_else max (get_or_else (get srv.max_stack id) 1))
            (get_or_else (get srv.phases id) 3))
        ∷ []
unfolding attach_client set_limit
on_connect-attach_client srv id amps max =
    let commanded = (set_limit srv id amps).0 in
    on_connect_sends max (attach_client commanded id) id amps (length srv.sockets)
      (fresh commanded id) (get-set_limit srv id amps) (station_of-attach_client commanded id)
