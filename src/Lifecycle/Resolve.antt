-- ===== src/Lifecycle/Resolve.antt =====
-- `resolveLoadpoint` of src/core/lifecycle.ts: a loadpoint's charge decision through the ladders of
-- smart charging. A target is in thousandths of its unit. The warning about a low battery of a disabled
-- loadpoint, which only logs, is left out.
pub mod Forces
use open_smart_charge.Base.{
  ℕ, ◌+◌, ◌-◌, ◌*◌, min, max, ◌==◌, Bool, true, false, ◌&&◌, ◌||◌, not, Option, none, some, String,
  List, [], ◌∷◌, is_some, is_true, str_eq, if◌then◌else◌, get_or_else,
}
use open_smart_charge.Base.Divide.{ceil_div}
use open_smart_charge.Base.Dict.{Dict, get, remove, update}
use open_smart_charge.Base.Int.{ℤ}
use open_smart_charge.Balancer.{Mode, disabled, smart, fast}
use open_smart_charge.Health.{Health}
use open_smart_charge.Health
use open_smart_charge.LocalTime.{local_parts, local_hour, ms_until_local_time, day_length}
use open_smart_charge.Loadpoint.{LoadpointState}
use open_smart_charge.Planner.{TariffSlot, PlannedSlot, DecideResult, decide_should_charge}
use open_smart_charge.Plans.{
  Plan, PlanUnit, pct, kwh, ReadyBy, select_active_plan, plan_target_time,
}
use open_smart_charge.SmartCharging.Energy.{Target, ResolvedTarget, resolve_target}
use open_smart_charge.SmartCharging.Gates.{force_min_soc, force_climate}
use open_smart_charge.SmartCharging.Guest.{truthy}
use open_smart_charge.SmartCharging.Price
use open_smart_charge.SmartCharging.Price.{non_empty, resolve_price_curve}
use open_smart_charge.Lifecycle.{Resolved}
use open_smart_charge.Lifecycle.Site.{Site, Runtime, is_available}
use open_smart_charge.Lifecycle.Context.{
  Vehicle, EnergyContext, gather_energy_context, historical_price_avg, car_data, can_actuate_of,
  lookup,
}

-- A tariff as the core sees it: its health, and its prices over a time, if the call succeeds.
pub record Tariff : Type 0 where
  pub health : Health
  pub prices : ℕ → ℕ → Option (List TariffSlot)

-- What a tick knows beside the loadpoints: the instant, the wall clocks of the site and of the process,
-- the vehicles, the plans, how a text of a time of day is read, and `config.smartCharging`.
pub record Surroundings : Type 0 where
  pub now : ℕ
  pub wall : ℕ → ℕ
  pub process_wall : ℕ → ℕ
  pub vehicles : Dict Vehicle
  pub candidates : List String
  pub plans : List Plan
  pub read_time : String → ReadyBy
  pub efficiency : ℕ
  pub night_start : ℕ
  pub night_end : ℕ
  pub historical_days : ℕ

-- A loadpoint's configuration, with the tariff that it names and the phases of its balancer and charger.
pub record LoadpointSettings : Type 0 where
  pub name : String
  pub tariff : Option Tariff
  pub balancer_phases : Option ℕ
  pub charger_phases : Option ℕ

unfoldable pub parse_target_time : (ℕ → ℕ) → ReadyBy → ℕ → ℕ
parse_target_time wall t now = now + ms_until_local_time wall now t.hour t.minute

abbrev ad_hoc_time : Surroundings → Option String → ℕ
ad_hoc_time s none = s.now + 24 * 3_600_000
ad_hoc_time s (some text) =
    if str_eq text ""
    then s.now + 24 * 3_600_000
    else parse_target_time s.wall (s.read_time text) s.now

unfoldable pub target_time_of : Surroundings → Option Plan → Option String → ℕ
target_time_of s none text = ad_hoc_time s text
target_time_of s (some p) text = plan_target_time s.wall p s.now

abbrev kwh_target : Option ℕ → Option Target
kwh_target none = none
kwh_target (some n) = some (record { unit = kwh; value = n })

-- The plan's target, or the loadpoint's own: a percentage, where the capacity is known or there is no
-- energy to fall back to, and else an energy.
unfoldable pub target_of : Option Plan → Option ℕ → Option ℕ → Option ℕ → Option Target
target_of (some p) soc kwh_to_add capacity = some (record { unit = p.unit; value = p.target })
target_of none none kwh_to_add capacity = kwh_target kwh_to_add
target_of none (some soc) none capacity = some (record { unit = pct; value = soc })
target_of none (some soc) (some n) none = kwh_target (some n)
target_of none (some soc) (some n) (some capacity) = some (record { unit = pct; value = soc })

abbrev is_down : Health → Bool
is_down Health.unavailable = true
is_down _ = false

unfoldable pub live_prices_of : Option Tariff → ℕ → ℕ → Option (List TariffSlot)
live_prices_of none from to = none
live_prices_of (some t) from to = if is_down t.health then none else t.prices from to

-- Only where there are no live prices. A call that fails counts as an empty history.
unfoldable pub history_of :
    Surroundings → Option Tariff → Option (List TariffSlot) → Option (List (ℕ × ℤ))
history_of s none live = none
history_of s (some t) (some (p ∷ ps)) = none
history_of s (some t) _ =
    historical_price_avg (local_hour s.wall)
      (get_or_else (t.prices (s.now - s.historical_days * day_length) s.now) [])

unfoldable pub price_of : Surroundings → LoadpointSettings → ℕ → Price.Resolved
price_of s lp target_time =
    let live = live_prices_of lp.tariff s.now target_time in
    resolve_price_curve (record {
      live_prices = live;
      historical_avg = history_of s lp.tariff live;
      now = s.now;
      process_wall = s.process_wall;
      target_time = target_time;
      night_start = s.night_start;
      night_end = s.night_end;
      local_hour = local_hour s.wall;
      night_price = none;
      day_price = none;
    })

abbrev pub is_smart : Mode → Bool
is_smart smart = true
is_smart _ = false

abbrev pause_of : Option Plan → Option String → Bool
pause_of (some p) active = p.pause_on_target
pause_of none active = is_some active

abbrev pub flips : Option String → Option String → Bool
flips none none = false
flips (some a) (some b) = not (str_eq a b)
flips _ _ = true

-- What the decision is made of.
pub record Basis : Type 0 where
  pub ctx : EnergyContext
  pub active_plan : Option Plan
  pub target_time : ℕ
  pub energy : ResolvedTarget

unfoldable pub basis_of : Surroundings → LoadpointSettings → LoadpointState → EnergyContext → Basis
basis_of s lp st ctx =
    let active_plan = select_active_plan s.plans (local_parts s.wall s.now) ctx.active_vehicle in
    let target_time = target_time_of s active_plan st.target_time in
    record {
      ctx = ctx;
      active_plan = active_plan;
      target_time = target_time;
      energy =
          resolve_target (target_of active_plan st.target_soc st.target_kwh ctx.reading.capacity)
            (record {
              reading = ctx.reading;
              estimated_soc = ctx.estimated_soc;
              session_energy = ctx.session_energy;
              time_until_target = max 900_000 (target_time - s.now);
              max_current = st.max_current_a;
              phases = get_or_else lp.balancer_phases (get_or_else lp.charger_phases 3);
              efficiency = some ctx.efficiency;
              duty_cycle = none;
            });
    }

-- `decideShouldCharge` at the rate that will be applied.
unfoldable pub price_decision :
    Surroundings → ℕ → LoadpointSettings → LoadpointState → Basis → DecideResult
price_decision s budget lp st b = decide_should_charge (record {
  required = b.energy.required;
  target_time = b.target_time;
  max_current = min st.max_current_a budget;
  phases = get_or_else lp.balancer_phases (get_or_else lp.charger_phases 3);
  price_slots = (price_of s lp b.target_time).value;
  now = s.now;
})

-- The decision of a loadpoint and its schedule.
unfoldable pub resolved_of :
    Surroundings → ℕ → LoadpointSettings → Runtime → Basis → Resolved × List PlannedSlot
resolved_of s budget lp r b =
    let st = r.state in
    let below_min = force_min_soc b.ctx.estimated_soc st.min_soc in
    let climate = force_climate b.ctx.climate_active st.live.connected in
    let by_price = price_decision s budget lp st b in
    (
      record {
        name = st.name;
        mode = st.mode;
        connected = st.live.connected;
        status = st.live.status;
        current_a = st.live.current_a;
        delivered = ceil_div r.delivered 1000;
        should_charge_now =
            if is_smart st.mode
            then some (below_min || (climate || by_price.should_charge))
            else none;
        climate_only =
            is_smart st.mode && (climate && (not by_price.should_charge && not below_min));
        climate_active = is_true b.ctx.climate_active;
        required = b.energy.required;
        target_reached = b.energy.required == 0;
        pause_on_target = pause_of b.active_plan b.ctx.active_vehicle;
        car = car_data s.vehicles b.ctx.active_vehicle;
        vehicle_can_actuate =
            can_actuate_of (lookup (truthy b.ctx.active_vehicle) (get s.vehicles));
      },
      if is_smart st.mode then by_price.planned_slots else [],
    )

abbrev has_text : Option String → Bool
has_text none = false
has_text (some t) = true

-- The identity is latched, and the schedule is kept for the interface.
abbrev pub surfaced : Basis → List PlannedSlot → Runtime → Runtime
surfaced b planned r = record r {
  active_vehicle = b.ctx.active_vehicle;
  planned_slots = planned;
  plan_ready_by =
      if is_some b.active_plan || has_text r.state.target_time then some b.target_time else none;
}

-- A flip of the identity drops the anchors.
unfoldable pub drop_anchors : Site → String → Bool → Site
drop_anchors site name true = record site {
  vehicle_anchor = remove site.vehicle_anchor name;
  session_first_reading = remove site.session_first_reading name;
}
drop_anchors site name false = site

abbrev resolve_known :
    Option Runtime → Surroundings → ℕ → LoadpointSettings → Site → Site × Option Resolved
resolve_known none s budget lp site = (site, none)
resolve_known (some r) s budget lp site =
    let gathered = gather_energy_context s.vehicles s.candidates s.efficiency site lp.name r in
    let b = basis_of s lp r.state gathered.1 in
    let out = resolved_of s budget lp r b in
    let kept = drop_anchors gathered.0 lp.name (flips r.active_vehicle gathered.1.active_vehicle) in
    (record kept { states = update kept.states lp.name (surfaced b out.1) }, some out.0)

unfoldable pub resolve_loadpoint :
    Surroundings → ℕ → LoadpointSettings → Site → Site × Option Resolved
resolve_loadpoint s budget lp site = resolve_known (get site.states lp.name) s budget lp site
