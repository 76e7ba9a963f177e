-- ===== src/Lifecycle/Prepare.antt =====
-- The first half of `circuitTick` in src/core/lifecycle.ts: for each loadpoint of the circuit the reset at
-- the end of a session, the peak of the delivered energy, the expiry of the fast boost, and the polls
-- of vehicles (`maybePollVehicles`) with what their answers change.
pub mod Boost
pub mod Polls
mod Tests
use open_smart_charge.Base.{
  ℕ, suc, max, Bool, true, false, ◌&&◌, ◌||◌, Option, none, some, String, List, [], ◌∷◌, ◌++◌,
  is_some, is_true, if◌then◌else◌, get_or_else, ltb, leb, filter_by, str_eq,
}
use open_smart_charge.Base.Dict.{Dict, get, put, remove, update}
use open_smart_charge.Balancer.{smart}
use open_smart_charge.Health.{BackoffCfg, backoff_delay}
use open_smart_charge.ControlLoop.{should_expire_fast_to_smart, fast_boost_unplug_grace}
use open_smart_charge.SmartCharging.Energy.{Anchor}
use open_smart_charge.SmartCharging.Gates.{should_poll_vehicle}
use open_smart_charge.Lifecycle.Site.{Site, Runtime, PollState, save_mode, wh}

-- The fields of `LoadpointConfig` that are read here.
pub record TickLoadpoint : Type 0 where
  pub name : String
  pub auto_revert_to_smart : Bool

abbrev pub at_session_end : Runtime → Runtime
at_session_end r = record r { delivered = 0; planned_slots = []; plan_ready_by = none }

-- The reset while the connector is free.
unfoldable pub end_session : Site → String → Site
end_session site name =
    if is_some (get site.available_since name)
    then record site {
      vehicle_anchor = remove site.vehicle_anchor name;
      session_first_reading = remove site.session_first_reading name;
      states = update site.states name at_session_end;
      control = record site.control {
        session_complete = put site.control.session_complete name false;
        zero_draw_since = remove site.control.zero_draw_since name;
      };
    }
    else site

abbrev pub peak : Runtime → Runtime
peak r = record r { delivered = max r.delivered r.state.live.session_energy }

unfoldable pub hold_peak : Site → String → Site
hold_peak site name = record site { states = update site.states name peak }

abbrev pub expires : Option Runtime → Option ℕ → ℕ → Bool → Bool
expires none since now enabled = false
expires (some r) since now enabled =
    should_expire_fast_to_smart r.state.mode since now fast_boost_unplug_grace enabled

unfoldable pub expire_fast : Site → TickLoadpoint → ℕ → Site
expire_fast site lp now =
    if expires (get site.states lp.name) (get site.available_since lp.name) now
      lp.auto_revert_to_smart
    then (let saved = save_mode site lp.name smart in
        record saved { available_since = remove saved.available_since lp.name })
    else site

unfoldable pub prepare_one : Site → TickLoadpoint → ℕ → Site
prepare_one site lp now = expire_fast (hold_peak (end_session site lp.name) lp.name) lp now

-- The cadences of `config.smartCharging`, in ms, with the window in local hours.
pub record PollSettings : Type 0 where
  pub poll_interval : ℕ
  pub idle_interval : ℕ
  pub day_start : ℕ
  pub day_end : ℕ

abbrev pub vehicle_poll_backoff : BackoffCfg
vehicle_poll_backoff = record { base = 30_000; factor = 2; longest = 300_000 }

abbrev pub never_polled : PollState
never_polled = record { last_poll_at = 0; polled_this_connection = false; consecutive_failures = 0 }

abbrev pub forget_connection : PollState → PollState
forget_connection p = record p { polled_this_connection = false; consecutive_failures = 0 }

unfoldable pub forget_all : Dict PollState → List String → Dict PollState
forget_all polls [] = polls
forget_all polls (v ∷ vs) = forget_all (update polls v forget_connection) vs

abbrev pub has_presence : Dict Bool → String → Bool
has_presence vehicles v = is_true (get vehicles v)

-- `pollSet`, with the vehicles and whether each of them reports its cable.
unfoldable pub poll_set : Dict Bool → List String → Option String → List String
poll_set vehicles candidates none = filter_by (has_presence vehicles) candidates
poll_set vehicles candidates (some active) =
    if has_presence vehicles active
    then active ∷ []
    else filter_by (has_presence vehicles) candidates

abbrev is_day : PollSettings → ℕ → Bool
is_day sc h =
    if leb sc.day_start sc.day_end
    then leb sc.day_start h && ltb h sc.day_end
    else leb sc.day_start h || ltb h sc.day_end

abbrev or_backoff : ℕ → ℕ → ℕ
or_backoff backoff interval = if ltb 0 backoff then backoff else interval

abbrev pub is_active : Option String → String → Bool
is_active none v = false
is_active (some a) v = str_eq v a

-- Whether a vehicle's next poll is due.
unfoldable pub poll_due : PollSettings → ℕ → ℕ → Runtime → String → PollState → Bool
poll_due sc hour now r v p =
    let backoff = backoff_delay p.consecutive_failures vehicle_poll_backoff in
    should_poll_vehicle (record {
      now = now;
      connected = r.state.live.connected;
      drawing = ltb 0 r.state.live.current_a && is_active r.active_vehicle v;
      last_poll_at = p.last_poll_at;
      charging_interval = or_backoff backoff sc.poll_interval;
      idle_interval =
          or_backoff backoff (if is_day sc hour then sc.idle_interval else sc.poll_interval);
      polled_this_connection = p.polled_this_connection;
    })

abbrev pub polled_at : ℕ → PollState → PollState
polled_at now p = record p { last_poll_at = now; polled_this_connection = true }

-- The loop over the poll set, with the vehicles whose refresh it starts.
unfoldable pub poll_each :
    PollSettings → ℕ → ℕ → Runtime → List String → Dict PollState → Dict PollState × List String
poll_each sc hour now r [] polls = (polls, [])
poll_each sc hour now r (v ∷ vs) polls =
    let p = get_or_else (get polls v) never_polled in
    let due = poll_each sc hour now r vs (put polls v (polled_at now p)) in
    let early = poll_each sc hour now r vs (put polls v p) in
    if poll_due sc hour now r v p then (due.0, v ∷ due.1) else early

abbrev poll_for :
    Option Runtime
    → PollSettings
    → Dict Bool
    → List String
    → String
    → ℕ
    → ℕ
    → Site
    → Site × List String
poll_for none sc vehicles candidates name hour now site = (site, [])
poll_for (some r) sc vehicles candidates name hour now site =
    if r.state.live.connected
    then (let polled =
          poll_each sc hour now r (poll_set vehicles candidates r.active_vehicle)
            site.vehicle_poll in
        (record site { vehicle_poll = polled.0 }, polled.1))
    else (
      record site {
        vehicle_poll = forget_all site.vehicle_poll candidates;
        session_first_reading = remove site.session_first_reading name;
      },
      [],
    )

-- The vehicles exist for as long as a tick runs, so those of the poll set are there.
unfoldable pub maybe_poll_vehicles :
    PollSettings → Dict Bool → List String → String → ℕ → ℕ → Site → Site × List String
maybe_poll_vehicles sc vehicles candidates name hour now site =
    poll_for (get site.states name) sc vehicles candidates name hour now site

-- The loop over the loadpoints of the circuit. An unknown loadpoint is skipped.
unfoldable pub prepare :
    PollSettings → Dict Bool → List String → ℕ → ℕ → List TickLoadpoint → Site → Site × List String
prepare sc vehicles candidates hour now [] site = (site, [])
prepare sc vehicles candidates hour now (lp ∷ lps) site =
    let polled =
      maybe_poll_vehicles sc vehicles candidates lp.name hour now (prepare_one site lp now) in
    let rest = prepare sc vehicles candidates hour now lps polled.0 in
    let skipped = prepare sc vehicles candidates hour now lps site in
    if is_some (get site.states lp.name) then (rest.0, polled.1 ++ rest.1) else skipped

abbrev keep_first : Option Anchor → Dict Anchor → String → Anchor → Dict Anchor
keep_first none m name a = put m name a
keep_first (some first) m name a = m

abbrev active_of : Option Runtime → Option String
active_of none = none
active_of (some r) = r.active_vehicle

abbrev energy_of : Option Runtime → ℕ
energy_of none = 0
energy_of (some r) = wh r.state.live.session_energy

-- A refresh that succeeds with a state of charge: only the active vehicle is anchored.
unfoldable pub refresh_done : Site → String → String → ℕ → Site
refresh_done site name v soc =
    let polls = update site.vehicle_poll v (λ p. record p { consecutive_failures = 0 }) in
    let reading : Anchor = record {
      soc = soc;
      session_energy = energy_of (get site.states name);
    } in
    if is_active (active_of (get site.states name)) v
    then record site {
      vehicle_poll = polls;
      vehicle_anchor = put site.vehicle_anchor name reading;
      session_first_reading =
          keep_first (get site.session_first_reading name) site.session_first_reading name reading;
    }
    else record site { vehicle_poll = polls }

unfoldable pub refresh_failed : Site → String → Site
refresh_failed site v = record site {
  vehicle_poll =
      update site.vehicle_poll v
        (λ p. record p { consecutive_failures = suc p.consecutive_failures });
}
