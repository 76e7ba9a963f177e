-- ===== src/Ocpp/Station/Plug.antt =====
-- What one plug-in of a car starts, and what its unplugging ends.
use mathlib.Core.Option.{some-injective}
use open_smart_charge.Base.{
  ℕ, zero, suc, ◌+◌, ◌≤◌, ◌≡◌, subst, ltb, refl, sym, ap, ◌∙◌, Bool, true, false, Option, none,
  some, List, [], ◌∷◌, arith, if◌then◌else◌, get_elem?, count_by, count_by-append, Option-cases,
  inl, inr, All,
}
use open_smart_charge.Charger.{Connector, available}
use open_smart_charge.Ocpp.Status.{should_auto_start_transaction}
use open_smart_charge.Ocpp.Readings.{MeterValue}
use open_smart_charge.Ocpp.Transactions.{Db, StartTransactionReq, StopTransactionReq}
use open_smart_charge.Ocpp.Transactions.Ids.{IsSound, Closes, close_open_transaction_lem}
use open_smart_charge.Ocpp.Station.{
  Station, Server, Effect, Command, push, send, remote_start_transaction, update_at,
}
use open_smart_charge.Ocpp.Station.Handlers.{
  is_available, settled, auto_starts, notified, status_notification, meter_values,
  start_transaction, stop_transaction, boot_notification, Message, status, meter, start, stop, boot,
  handle, serve, started, close_stale, sent, adopted,
}

abbrev is_start_command : Command → Bool
is_start_command (remote_start_transaction id_tag c) = true
is_start_command _ = false

-- Whether an effect is a RemoteStartTransaction.
abbrev pub is_start : Effect → Bool
is_start (send n c) = is_start_command c
is_start (push id c s) = false

abbrev pub is_unplug : Message → Bool
is_unplug (status now c s) = is_available s
is_unplug _ = false

get-update_at :
    (n : ℕ) (f : Station → Station) (ss : List Station) (s : Station)
    → get_elem? ss n ≡ some s
    → get_elem? (update_at n f ss) n ≡ some (f s)
get-update_at n f [] s e = absurd cc
get-update_at zero f (x ∷ xs) s e = ap some (ap f (some-injective _ _ e))
get-update_at (suc n) f (x ∷ xs) s e = get-update_at n f xs s e

abbrev mark : Station → ℕ
mark s = if s.has_auto_started then 1 else 0

-- What is started on the way from one state of the object to another.
abbrev Starts : Station → Option Station → List Effect → Type 0
Starts s none effects = ⊥
Starts s (some s') effects = count_by is_start effects + mark s ≤ mark s'

Starts-update_at :
    (n : ℕ) (f : Station → Station) (srv : Server) (s : Station) (effects : List Effect)
    → get_elem? srv.sockets n ≡ some s
    → count_by is_start effects + mark s ≤ mark (f s)
    → Starts s (get_elem? (update_at n f srv.sockets) n) effects
Starts-update_at n f srv s effects e h = rw (get-update_at n f srv.sockets s e) h

notified_once :
    (s : Station) (c : ℕ) (st : Connector)
    → is_available st ≡ false
    → (if auto_starts (settled s c st) st then 1 else 0) + mark s ≤ mark (notified s c st)
unfolding notified settled auto_starts should_auto_start_transaction
notified_once s c st u = ground (arith, u)

status-Starts :
    (srv : Server) (n : ℕ) (s : Station) (now c : ℕ) (st : Connector)
    → get_elem? srv.sockets n ≡ some s
    → is_available st ≡ false
    → let r = status_notification srv n s now c st in Starts s (get_elem? r.0.sockets n) r.1
unfolding status_notification
status-Starts srv n s now c st e u =
    Starts-update_at n (λ o. notified o c st) srv s _ e (ground (arith, notified_once s c st u))

meter-Starts :
    (srv : Server) (n : ℕ) (s : Station) (c : ℕ) (t : Option ℕ) (mvs : List MeterValue)
    → get_elem? srv.sockets n ≡ some s
    → let r = meter_values srv n s c t mvs in Starts s (get_elem? r.0.sockets n) r.1
unfolding meter_values
meter-Starts srv n s c t mvs e =
    Starts-update_at n (λ o. record o { active = adopted t s.active }) srv s _ e (ground arith)

started-Starts :
    (o : Option Db) (srv : Server) (n : ℕ) (s : Station) (params : StartTransactionReq) (id : ℕ)
    → get_elem? srv.sockets n ≡ some s
    → let r = started srv n s params id o in Starts s (get_elem? r.0.sockets n) (sent r.1)
started-Starts none srv n s params id e = rw e (omega arith)
started-Starts (some db) srv n s params id e =
    Starts-update_at n (λ o. record o { active = some id }) srv s _ e (ground arith)

start-Starts :
    (srv : Server) (n : ℕ) (s : Station) (params : StartTransactionReq)
    → get_elem? srv.sockets n ≡ some s
    → let r = start_transaction srv n s params in Starts s (get_elem? r.0.sockets n) (sent r.1)
unfolding start_transaction
start-Starts srv n s params e = started-Starts _ (record srv { db = _ }) n s params _ e

stop-Starts :
    (srv : Server) (n : ℕ) (s : Station) (params : StopTransactionReq)
    → get_elem? srv.sockets n ≡ some s
    → let r = stop_transaction srv n s params in Starts s (get_elem? r.0.sockets n) r.1
unfolding stop_transaction
stop-Starts srv n s params e =
    Starts-update_at n (λ o. record o { active = none }) srv s _ e (omega arith)

handle-Starts :
    (default : ℕ) (srv : Server) (n : ℕ) (s : Station) (m : Message)
    → get_elem? srv.sockets n ≡ some s
    → is_unplug m ≡ false
    → let r = handle default srv n s m in Starts s (get_elem? r.0.sockets n) r.1
unfolding handle boot_notification
handle-Starts default srv n s (status now c st) e u = status-Starts srv n s now c st e u
handle-Starts default srv n s (meter c t mvs) e u = meter-Starts srv n s c t mvs e
handle-Starts default srv n s (start params) e u = start-Starts srv n s params e
handle-Starts default srv n s (stop params) e u = stop-Starts srv n s params e
handle-Starts default srv n s (boot vendor model) e u = rw e (omega arith)

-- In every sequence of messages of a socket in which the car is not unplugged, at most one transaction
-- is started by itself, and none if one was started before on that socket. A new socket of the station
-- starts with the mark unset.
pub serve_once :
    (default : ℕ) (srv : Server) (n : ℕ) (s : Station) (ms : List Message)
    → get_elem? srv.sockets n ≡ some s
    → All (λ m. is_unplug m ≡ false) ms
    → count_by is_start (serve default srv n ms).1 + (if s.has_auto_started then 1 else 0) ≤ 1
unfolding serve
serve_once default srv n s [] e h = ground arith
serve_once default srv n s (m ∷ ms) e h =
    let first = handle default srv n s m in
    let starts = handle-Starts default srv n s m e h.0 in
    rw e (elim (Option-cases (get_elem? first.0.sockets n)) [
      | inl gone ↦ absurd (subst (λ o. Starts s o first.1) gone starts)
      | inr (s', there) ↦
          let one : count_by is_start first.1 + mark s ≤ mark s' =
            subst (λ o. Starts s o first.1) there starts in
          omega (
            arith,
            one,
            serve_once default first.0 n s' ms there h.1,
            count_by-append is_start first.1 (serve default first.0 n ms).1,
          )
    ])

notified_free :
    (s : Station) (c : ℕ)
    → notified s c available ≡ (record s {
      active = none;
      has_auto_started = false;
      connector_id = if ltb 0 c then c else s.connector_id;
    })
unfolding notified settled auto_starts should_auto_start_transaction
notified_free s c = refl

-- When the connector is free, the transaction that the socket still holds is dropped and closed in the
-- table: no station has it open any more, so that no later connection takes it up, and the next car is
-- auto-started again.
pub unplug_settles :
    (srv : Server) (n : ℕ) (s : Station) (now c id : ℕ)
    → get_elem? srv.sockets n ≡ some s
    → s.active ≡ some id
    → IsSound srv.db
    → let srv' = (status_notification srv n s now c available).0 in
      Closes srv.db id srv'.db
      × (get_elem? srv'.sockets n
          ≡ some (record s {
            active = none;
            has_auto_started = false;
            connector_id = if ltb 0 c then c else s.connector_id;
          }))
unfolding status_notification
unplug_settles srv n s now c id e held sound = (
  subst (λ o. Closes srv.db id (close_stale o srv.db now)) (sym held)
      (close_open_transaction_lem srv.db id now sound),
  get-update_at n (λ o. notified o c available) srv.sockets s e ∙ ap some (notified_free s c),
)
