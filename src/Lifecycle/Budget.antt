-- ===== src/Lifecycle/Budget.antt =====
-- `resolveCircuitBudget` of src/core/lifecycle.ts: what a circuit may draw. The warning about a phase
-- above the fuse, which only logs, is left out.
use open_smart_charge.Base.{
  ℕ, max, ◌+◌, ◌≤◌, ◌≡◌, ◌⊎◌, Option, none, some, String, List, arith, get_or_else, map, All,
  All-map,
}
use open_smart_charge.Base.Dict.{Dict, get}
use open_smart_charge.ControlLoop.{
  Loadpoint, Circuit, shared, bare, Reader, circuit_own_draw, circuit_live_max_phase, plan_circuit,
}
use open_smart_charge.SmartCharging.Current.{
  CurrentInputs, resolve_current_budget, KeepsFuse, reserve_of, resolve_current_budget_safe,
}
use open_smart_charge.SmartCharging.Rollup.{LoadRow, worst_case_load}
use open_smart_charge.Lifecycle.{
  Resolved, Control, ChargerAbilities, Effect, limit, act, decision_of, circuit_tick,
}
use open_smart_charge.Lifecycle.Bounds.{IsSafe, circuit_tick-IsSafe}

-- `config.smartCharging`, with the fuse of the site.
pub record Settings : Type 0 where
  pub main_breaker : Option ℕ
  pub reserve : ℕ
  pub night_start : ℕ
  pub night_end : ℕ
  pub night_margin : ℕ
  pub daytime_fraction : ℕ

-- A balancer's own fuse, meter and margins.
pub record BalancerConfig : Type 0 where
  pub main_breaker : Option ℕ
  pub meter_reader : Option String
  pub reserve : Option ℕ
  pub night_margin : Option ℕ
  pub daytime_fraction : Option ℕ

abbrev pub no_balancer : BalancerConfig
no_balancer = record {
  main_breaker = none;
  meter_reader = none;
  reserve = none;
  night_margin = none;
  daytime_fraction = none;
}

-- What is known at a tick: the local hour, the first day of the history, the history, the meters, the
-- ceilings and live currents of the loadpoints, and their last limits.
pub record Moment : Type 0 where
  pub hour : ℕ
  pub earliest : ℕ
  pub history : List LoadRow
  pub readers : Dict Reader
  pub max_currents : Dict ℕ
  pub currents : Dict ℕ
  pub commanded : Dict ℕ

-- The history counts only where there is a fuse.
abbrev worst : Option ℕ → Moment → Option ℕ
worst none m = none
worst (some breaker) m = worst_case_load m.history m.hour m.earliest

unfoldable pub inputs_of : Settings → Dict BalancerConfig → Moment → Circuit → CurrentInputs
inputs_of sc balancers m (shared name lps) =
    let b = get_or_else (get balancers name) no_balancer in
    record {
      hour = m.hour;
      max_current = get_or_else b.main_breaker 0;
      main_breaker = b.main_breaker;
      live_max_phase = circuit_live_max_phase b.meter_reader m.readers;
      own_draw = some (circuit_own_draw lps m.currents m.commanded);
      worst_case_load = worst b.main_breaker m;
      reserve = some (get_or_else b.reserve sc.reserve);
      night_start = sc.night_start;
      night_end = sc.night_end;
      night_margin = some (get_or_else b.night_margin sc.night_margin);
      daytime_fraction = some (get_or_else b.daytime_fraction sc.daytime_fraction);
      min_current = none;
    }
inputs_of sc balancers m (bare lp) = record {
  hour = m.hour;
  max_current = get_or_else (get m.max_currents lp.name) 0;
  main_breaker = sc.main_breaker;
  live_max_phase = circuit_live_max_phase none m.readers;
  own_draw =
      some (max (get_or_else (get m.currents lp.name) 0) (get_or_else (get m.commanded lp.name) 0));
  worst_case_load = worst sc.main_breaker m;
  reserve = some sc.reserve;
  night_start = sc.night_start;
  night_end = sc.night_end;
  night_margin = some sc.night_margin;
  daytime_fraction = some sc.daytime_fraction;
  min_current = none;
}

unfoldable pub resolve_circuit_budget : Settings → Dict BalancerConfig → Moment → Circuit → ℕ
resolve_circuit_budget sc balancers m circuit =
    (resolve_current_budget (inputs_of sc balancers m circuit)).value

-- A limit, sent or asserted again, that leaves the reserve and the load beside the loadpoint's own draw under the fuse.
abbrev pub IsUnderFuse : (main reserve load own : ℕ) → Effect → Type 0
IsUnderFuse main reserve load own (limit k a) = (a ≡ 0) ⊎ (a + reserve + load ≤ main + own)
IsUnderFuse main reserve load own (act k action n) = (n ≡ 0) ⊎ (n + reserve + load ≤ main + own)

keeps_live :
    (i : CurrentInputs) (fuse metered history : Option ℕ) (v main load : ℕ)
    → fuse ≡ some main
    → metered ≡ some load
    → KeepsFuse i fuse metered history v
    → (v ≡ 0) ⊎ (v + reserve_of i + load ≤ main + get_or_else i.own_draw 0)
keeps_live i fuse metered history v main load e f k = rw (e, f) at k

budget-KeepsFuse :
    (sc : Settings) (balancers : Dict BalancerConfig) (m : Moment) (lp : Loadpoint) (main load : ℕ)
    → sc.daytime_fraction ≤ 1000
    → sc.main_breaker ≡ some main
    → circuit_live_max_phase none m.readers ≡ some load
    → let v = resolve_circuit_budget sc balancers m (bare lp) in
      (v ≡ 0)
      ⊎ (v + sc.reserve + load
          ≤ main
            + max
                (get_or_else (get m.currents lp.name) 0)
                (get_or_else (get m.commanded lp.name) 0))
unfolding resolve_circuit_budget inputs_of
budget-KeepsFuse sc balancers m lp main load h fuse metered =
    let i = inputs_of sc balancers m (bare lp) in
    keeps_live i i.main_breaker i.live_max_phase i.worst_case_load _ main load fuse metered
      (resolve_current_budget_safe i h).1

limit-IsUnderFuse :
    (budget main reserve load own : ℕ) (amps : Dict ℕ) (e : Effect)
    → (budget ≡ 0) ⊎ (budget + reserve + load ≤ main + own)
    → IsSafe budget amps e
    → IsUnderFuse main reserve load own e
limit-IsUnderFuse budget main reserve load own amps (limit k a) h safe = omega arith
limit-IsUnderFuse budget main reserve load own amps (act k action n) h safe = omega (arith, safe.2)

-- With a meter that is live, the tick of a loadpoint without a balancer sends or asserts again no limit
-- but zero that does not leave the reserve and the measured load, less the loadpoint's own draw, under the fuse of
-- the site, if the daytime fraction is at most 1.
pub circuit_tick-IsUnderFuse :
    (sc : Settings) (balancers : Dict BalancerConfig) (m : Moment) (lp : Loadpoint)
    (main load deadband now : ℕ) (chargers : Dict ChargerAbilities) (c : Control)
    (rs : List Resolved)
    → sc.daytime_fraction ≤ 1000
    → sc.main_breaker ≡ some main
    → circuit_live_max_phase none m.readers ≡ some load
    → let budget = resolve_circuit_budget sc balancers m (bare lp) in
      let own =
        max (get_or_else (get m.currents lp.name) 0) (get_or_else (get m.commanded lp.name) 0) in
      All
        (IsUnderFuse main sc.reserve load own)
        (circuit_tick budget none deadband now chargers c rs).1
circuit_tick-IsUnderFuse sc balancers m lp main load deadband now chargers c rs h fuse metered =
    let budget = resolve_circuit_budget sc balancers m (bare lp) in
    let own =
      max (get_or_else (get m.currents lp.name) 0) (get_or_else (get m.commanded lp.name) 0) in
    let amps = (plan_circuit (map (decision_of budget c.last_commanded) rs) none deadband).amps in
    All-map (IsSafe budget amps) (IsUnderFuse main sc.reserve load own) _
      (λ e safe.
        limit-IsUnderFuse budget main sc.reserve load own amps e
          (budget-KeepsFuse sc balancers m lp main load h fuse metered) safe)
      (circuit_tick-IsSafe budget deadband now chargers c rs).0
