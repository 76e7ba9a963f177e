-- ===== src/Lifecycle/Prepare/Boost.antt =====
-- The end of a session in src/core/lifecycle.ts: since when the connector is free, what the tick resets
-- then, and when a fast boost reverts to smart.
use open_smart_charge.Base.{
  ℕ, ◌+◌, leb, ltb, false, ◌≡◌, refl, ap, ◌∙◌, Bool, true, ◌&&◌, Option, none, some, String, List,
  [], ◌∷◌, arith, if◌then◌else◌, get_or_else, eq_iff,
}
use open_smart_charge.Base.Dict.{Dict, get, get-put, get-remove}
use open_smart_charge.Balancer.{Mode, smart, fast}
use open_smart_charge.Charger.{Connector, ChargerStatus}
use open_smart_charge.Lifecycle.Site.{Site, Runtime, note_available, charger_status, is_available}

-- What a charger pushes, each with its time.
abbrev pub charger_statuses : Site → String → List (ChargerStatus × ℕ) → Site
charger_statuses site name [] = site
charger_statuses site name ((s, now) ∷ fs) =
    charger_statuses (charger_status site name s now) name fs

abbrev all_available : List (ChargerStatus × ℕ) → Bool
all_available [] = true
all_available ((s, now) ∷ fs) = is_available s.status && all_available fs

-- When the last run of frames that say `Available` began, if the last frame says so; before the first
-- frame the connector was free since `before`.
abbrev pub unplugged_since : Option ℕ → List (ChargerStatus × ℕ) → Option ℕ
unplugged_since before [] = before
unplugged_since before ((s, now) ∷ fs) =
    if all_available ((s, now) ∷ fs) then some (get_or_else before now) else unplugged_since none fs

get-note_available :
    (m : Dict ℕ) (name : String) (c : Connector) (now : ℕ)
    → get (note_available m name c now) name
      ≡ (if is_available c then some (get_or_else (get m name) now) else none)
unfolding note_available
get-note_available m name c now =
    ground (arith, (eq_iff name name).1, get-put m name name now, get-remove m name name)

unplugged_after :
    (before : Option ℕ) (s : ChargerStatus) (now : ℕ) (fs : List (ChargerStatus × ℕ))
    → unplugged_since (if is_available s.status then some (get_or_else before now) else none) fs
      ≡ unplugged_since before ((s, now) ∷ fs)
unplugged_after before s now [] = ground arith
unplugged_after before s now ((t, later) ∷ fs) = ground arith

-- The table of free connectors holds, after any frames of a charger, the time at which its current run
-- of `Available` frames began, and nothing if its last frame says anything else: a blip restarts it.
pub available_since-unplugged_since :
    (site : Site) (name : String) (frames : List (ChargerStatus × ℕ))
    → get (charger_statuses site name frames).available_since name
      ≡ unplugged_since (get site.available_since name) frames
unfolding charger_status
available_since-unplugged_since site name [] = refl
available_since-unplugged_since site name ((s, now) ∷ fs) =
    available_since-unplugged_since (charger_status site name s now) name fs
    ∙ ap (λ o. unplugged_since o fs) (get-note_available site.available_since name s.status now)
    ∙ unplugged_after (get site.available_since name) s now fs

-- What the tick makes of a loadpoint, given since when its connector is free: the energy of a session is
-- held at the highest value that the charger reported; a free connector forgets it with the schedule,
-- and after more than five minutes turns fast into smart, where that is enabled.
abbrev pub reverts : Mode → Bool → ℕ → ℕ → Bool
reverts fast true since now = ltb (since + 300_000) now
reverts _ _ since now = false

abbrev pub prepared : Option ℕ → ℕ → Bool → Runtime → Runtime
prepared none now enabled r = record r {
  delivered =
      if leb r.delivered r.state.live.session_energy
      then r.state.live.session_energy
      else r.delivered;
}
prepared (some since) now enabled r = record {
  state = record r.state {
    mode = if reverts r.state.mode enabled since now then smart else r.state.mode;
  };
  active_vehicle = r.active_vehicle;
  delivered = r.state.live.session_energy;
  planned_slots = [];
  plan_ready_by = none;
}
