-- ===== src/Lifecycle/Tick/Outcome.antt =====
-- The limits that a whole tick of src/core/lifecycle.ts sends out.
use open_smart_charge.Base.{ℕ, ◌≡◌, ◌≤◌, max, none, some, List, [], ◌∷◌, get_or_else, All}
use open_smart_charge.Base.Dict.{get}
use open_smart_charge.ControlLoop.{bare, Loadpoint, circuit_live_max_phase}
use open_smart_charge.Lifecycle.{Resolved}
use open_smart_charge.Lifecycle.Budget.{
  IsUnderFuse, resolve_circuit_budget, circuit_tick-IsUnderFuse,
}
use open_smart_charge.Lifecycle.Prepare.{prepare}
use open_smart_charge.Lifecycle.Resolve.{Surroundings}
use open_smart_charge.Lifecycle.Site.{Site}
use open_smart_charge.Lifecycle.Tick.{
  Setup, moment_of, tick_loadpoint, resolve_all, coordinate, run_tick,
}

coordinate-IsUnderFuse :
    (c : Setup) (lp : Loadpoint) (hour main load now : ℕ) (ready site : Site) (rs : List Resolved)
    → c.settings.daytime_fraction ≤ 1000
    → c.settings.main_breaker ≡ some main
    → circuit_live_max_phase none c.readers ≡ some load
    → let m = moment_of c hour ready in
      let own =
        max (get_or_else (get m.currents lp.name) 0) (get_or_else (get m.commanded lp.name) 0) in
      All
        (IsUnderFuse main c.settings.reserve load own)
        (coordinate c
          (bare lp)
          (resolve_circuit_budget c.settings c.balancers m (bare lp))
          now
          site
          rs).1
unfolding coordinate moment_of
coordinate-IsUnderFuse c lp hour main load now ready site [] h fuse metered = tt
coordinate-IsUnderFuse c lp hour main load now ready site (r ∷ rs) h fuse metered =
    circuit_tick-IsUnderFuse c.settings c.balancers (moment_of c hour ready) lp main load c.deadband
      now c.chargers site.control (r ∷ rs) h fuse metered

-- A whole tick of a loadpoint without a balancer, with a live meter, sends no limit but zero, by a write
-- or by the lever that asserts one again, that does not leave the reserve and the measured load, less the loadpoint's own draw, under the fuse of the site,
-- whatever its mode, plans, prices, vehicles and history are; the daytime fraction is at most 1.
pub run_tick-IsUnderFuse :
    (s : Surroundings) (c : Setup) (hour : ℕ) (lp : Loadpoint) (site : Site) (main load : ℕ)
    → c.settings.daytime_fraction ≤ 1000
    → c.settings.main_breaker ≡ some main
    → circuit_live_max_phase none c.readers ≡ some load
    → let ready =
        (prepare c.poll c.presence s.candidates hour s.now (tick_loadpoint c lp ∷ []) site).0 in
      let m = moment_of c hour ready in
      let own =
        max (get_or_else (get m.currents lp.name) 0) (get_or_else (get m.commanded lp.name) 0) in
      All (IsUnderFuse main c.settings.reserve load own) (run_tick s c hour (bare lp) site).1.0
unfolding run_tick
run_tick-IsUnderFuse s c hour lp site main load h fuse metered =
    let ready =
      (prepare c.poll c.presence s.candidates hour s.now (tick_loadpoint c lp ∷ []) site).0 in
    let budget = resolve_circuit_budget c.settings c.balancers (moment_of c hour ready) (bare lp) in
    let decided = resolve_all s budget c (lp ∷ []) ready in
    coordinate-IsUnderFuse c lp hour main load s.now ready decided.0 decided.1 h fuse metered
