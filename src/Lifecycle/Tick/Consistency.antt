-- ===== src/Lifecycle/Tick/Consistency.antt =====
-- The persisted rows against the live state of src/core/lifecycle.ts, when ticks, handlers and chargers
-- take turns.
use open_smart_charge.Base.{
  ℕ, refl, Bool, true, false, Option, none, String, List, [], ◌∷◌, if◌then◌else◌, is_some,
  Bool-cases, Option-cases, inl, inr,
}
use open_smart_charge.Base.Dict.{Dict, get}
use open_smart_charge.Balancer.{Mode, smart}
use open_smart_charge.Charger.{ChargerStatus}
use open_smart_charge.ControlLoop.{Circuit, shared, bare, Loadpoint, members}
use open_smart_charge.Loadpoint.{TargetPatch}
use open_smart_charge.Lifecycle.{Resolved}
use open_smart_charge.Lifecycle.Prepare.{
  PollSettings, TickLoadpoint, end_session, hold_peak, expire_fast, prepare_one, prepare,
  maybe_poll_vehicles, at_session_end, peak, expires,
}
use open_smart_charge.Lifecycle.Context.{gather_energy_context}
use open_smart_charge.Lifecycle.Resolve.{
  Surroundings, LoadpointSettings, resolve_loadpoint, drop_anchors, surfaced, basis_of, resolved_of,
  flips,
}
use open_smart_charge.Lifecycle.Site.{
  Site, Runtime, charger_status, handle_mode_change, handle_target_change, handle_vehicle_override,
}
use open_smart_charge.Lifecycle.Site.Agreement.{
  Agrees, live-Agrees, save_mode-Agrees, save_override-Agrees, save_target-Agrees,
  charger_status-Agrees,
}
use open_smart_charge.Lifecycle.Tick.{Setup, resolve_all, coordinate, run_tick}

-- The agreement of a site's live states with its rows.
abbrev pub IsConsistent : Site → Type 0
IsConsistent site = Agrees site.states site.db

end_session-IsConsistent :
    (site : Site) (name : String) → IsConsistent site → IsConsistent (end_session site name)
unfolding end_session
end_session-IsConsistent site name h = elim (Bool-cases (is_some (get site.available_since name))) [
  | inl e ↦ rw e (live-Agrees site.states site.db name at_session_end (λ r. refl) h)
  | inr e ↦ rw e h
]

expire_fast-IsConsistent :
    (site : Site) (lp : TickLoadpoint) (now : ℕ)
    → IsConsistent site
    → IsConsistent (expire_fast site lp now)
unfolding expire_fast
expire_fast-IsConsistent site lp now h =
    elim (Bool-cases (
      expires (get site.states lp.name) (get site.available_since lp.name) now
        lp.auto_revert_to_smart)) [
          | inl e ↦ rw e (save_mode-Agrees site lp.name smart h)
          | inr e ↦ rw e h
        ]

prepare_one-IsConsistent :
    (site : Site) (lp : TickLoadpoint) (now : ℕ)
    → IsConsistent site
    → IsConsistent (prepare_one site lp now)
unfolding prepare_one hold_peak
prepare_one-IsConsistent site lp now h =
    let ended = end_session site lp.name in
    expire_fast-IsConsistent (hold_peak ended lp.name) lp now (
      live-Agrees ended.states ended.db lp.name peak (λ r. refl)
        (end_session-IsConsistent site lp.name h))

if-IsConsistent :
    {A : Type 0} (b : Bool) (x y : Site × A)
    → IsConsistent x.0
    → IsConsistent y.0
    → IsConsistent (if b then x else y).0
if-IsConsistent true x y hx hy = hx
if-IsConsistent false x y hx hy = hy

choose-IsConsistent :
    (b : Bool) (x y : Site) → IsConsistent x → IsConsistent y → IsConsistent (if b then x else y)
choose-IsConsistent true x y hx hy = hx
choose-IsConsistent false x y hx hy = hy

polls-IsConsistent :
    (sc : PollSettings) (vehicles : Dict Bool) (candidates : List String) (name : String)
    (hour now : ℕ) (site : Site)
    → IsConsistent site
    → IsConsistent (maybe_poll_vehicles sc vehicles candidates name hour now site).0
unfolding maybe_poll_vehicles
polls-IsConsistent sc vehicles candidates name hour now site h =
    elim (Option-cases (get site.states name)) [
      | inl e ↦ rw e h
      | inr (r, e) ↦ rw e (if-IsConsistent r.state.live.connected _ _ h h)
    ]

prepare-IsConsistent :
    (sc : PollSettings) (vehicles : Dict Bool) (candidates : List String) (hour now : ℕ)
    (lps : List TickLoadpoint) (site : Site)
    → IsConsistent site
    → IsConsistent (prepare sc vehicles candidates hour now lps site).0
unfolding prepare
prepare-IsConsistent sc vehicles candidates hour now [] site h = h
prepare-IsConsistent sc vehicles candidates hour now (lp ∷ lps) site h =
    if-IsConsistent (is_some (get site.states lp.name)) _ _
      (prepare-IsConsistent sc vehicles candidates hour now lps _ (
        polls-IsConsistent sc vehicles candidates lp.name hour now (prepare_one site lp now)
          (prepare_one-IsConsistent site lp now h)))
      (prepare-IsConsistent sc vehicles candidates hour now lps site h)

gathered-IsConsistent :
    (s : Surroundings) (name : String) (r : Runtime) (site : Site)
    → IsConsistent site
    → IsConsistent (gather_energy_context s.vehicles s.candidates s.efficiency site name r).0
unfolding gather_energy_context
gathered-IsConsistent s name r site h =
    choose-IsConsistent _ _ _ (save_override-Agrees site name none h) h

dropped-IsConsistent :
    (site : Site) (name : String) (b : Bool)
    → IsConsistent site
    → IsConsistent (drop_anchors site name b)
unfolding drop_anchors
dropped-IsConsistent site name true h = h
dropped-IsConsistent site name false h = h

resolve_loadpoint-IsConsistent :
    (s : Surroundings) (budget : ℕ) (lp : LoadpointSettings) (site : Site)
    → IsConsistent site
    → IsConsistent (resolve_loadpoint s budget lp site).0
unfolding resolve_loadpoint
resolve_loadpoint-IsConsistent s budget lp site h = elim (Option-cases (get site.states lp.name)) [
  | inl e ↦ rw e h
  | inr (r, e) ↦
      let gathered = gather_energy_context s.vehicles s.candidates s.efficiency site lp.name r in
      let b = basis_of s lp r.state gathered.1 in
      let out = resolved_of s budget lp r b in
      let flip = flips r.active_vehicle gathered.1.active_vehicle in
      let kept = drop_anchors gathered.0 lp.name flip in
      rw e (
        live-Agrees kept.states kept.db lp.name (surfaced b out.1) (λ q. refl)
          (dropped-IsConsistent gathered.0 lp.name flip (gathered-IsConsistent s lp.name r site h)))
]

resolve_all-IsConsistent :
    (s : Surroundings) (budget : ℕ) (c : Setup) (lps : List Loadpoint) (site : Site)
    → IsConsistent site
    → IsConsistent (resolve_all s budget c lps site).0
unfolding resolve_all
resolve_all-IsConsistent s budget c [] site h = h
resolve_all-IsConsistent s budget c (lp ∷ lps) site h =
    resolve_all-IsConsistent s budget c lps _ (resolve_loadpoint-IsConsistent s budget _ site h)

coordinate-IsConsistent :
    (c : Setup) (circuit : Circuit) (budget now : ℕ) (site : Site) (rs : List Resolved)
    → IsConsistent site
    → IsConsistent (coordinate c circuit budget now site rs).0
unfolding coordinate
coordinate-IsConsistent c circuit budget now site [] h = h
coordinate-IsConsistent c (bare lp) budget now site (r ∷ rs) h = h
coordinate-IsConsistent c (shared name lps) budget now site (r ∷ rs) h =
    if-IsConsistent (is_some (get c.balancers name)) _ _ h h

run_tick-IsConsistent :
    (s : Surroundings) (c : Setup) (hour : ℕ) (circuit : Circuit) (site : Site)
    → IsConsistent site
    → IsConsistent (run_tick s c hour circuit site).0
unfolding run_tick
run_tick-IsConsistent s c hour circuit site h = coordinate-IsConsistent c circuit _ s.now _ _ (
    resolve_all-IsConsistent s _ c (members circuit) _
      (prepare-IsConsistent c.poll c.presence s.candidates hour s.now _ site h))

-- What may happen to the site, in any order.
pub data Event : Type 0 where
  pushed : String → ChargerStatus → ℕ → Event
  mode_set : String → Mode → Event
  target_set : String → TargetPatch → Event
  override_set : String → Option String → Event
  ticked : Surroundings → Setup → ℕ → Circuit → Event

abbrev pub happen : List Circuit → Site → Event → Site
happen circuits site (pushed name status now) = charger_status site name status now
happen circuits site (mode_set name mode) = (handle_mode_change site circuits name mode).0
happen circuits site (target_set name p) = (handle_target_change site circuits name p).0
happen circuits site (override_set name o) = (handle_vehicle_override site circuits name o).0
happen circuits site (ticked s c hour circuit) = (run_tick s c hour circuit site).0

abbrev pub happen_all : List Circuit → Site → List Event → Site
happen_all circuits site [] = site
happen_all circuits site (e ∷ es) = happen_all circuits (happen circuits site e) es

happen-IsConsistent :
    (circuits : List Circuit) (site : Site) (e : Event)
    → IsConsistent site
    → IsConsistent (happen circuits site e)
unfolding handle_mode_change handle_target_change handle_vehicle_override
happen-IsConsistent circuits site (pushed name status now) h =
    charger_status-Agrees site name status now h
happen-IsConsistent circuits site (mode_set name mode) h =
    if-IsConsistent (is_some (get site.states name)) _ _ (save_mode-Agrees site name mode h) h
happen-IsConsistent circuits site (target_set name p) h =
    if-IsConsistent (is_some (get site.states name)) _ _ (save_target-Agrees site name p h) h
happen-IsConsistent circuits site (override_set name o) h =
    if-IsConsistent (is_some (get site.states name)) _ _ (save_override-Agrees site name o h) h
happen-IsConsistent circuits site (ticked s c hour circuit) h =
    run_tick-IsConsistent s c hour circuit site h

-- The persisted rows always say what the live states say, in mode, targets and vehicle override, through
-- any sequence of charger frames, handler calls and ticks, with what those expire and clear themselves:
-- a restart at any moment between them loads the same. They must say so at first.
pub happen_all-IsConsistent :
    (circuits : List Circuit) (site : Site) (events : List Event)
    → IsConsistent site
    → IsConsistent (happen_all circuits site events)
happen_all-IsConsistent circuits site [] h = h
happen_all-IsConsistent circuits site (e ∷ es) h =
    happen_all-IsConsistent circuits (happen circuits site e) es
      (happen-IsConsistent circuits site e h)
