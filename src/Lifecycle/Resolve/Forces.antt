-- ===== src/Lifecycle/Resolve/Forces.antt =====
-- When `resolveLoadpoint` of src/core/lifecycle.ts charges against the price, and when it pauses.
use open_smart_charge.Base.{
  ℕ, min, ◌<◌, ◌≡◌, ◌↔◌, refl, Bool, true, false, ◌&&◌, ◌||◌, not, Option, none, some, arith, ◌==◌,
  if◌then◌else◌,
}
use open_smart_charge.Balancer.{Mode, disabled, smart, fast}
use open_smart_charge.ControlLoop.{amps_of, bare_circuit_amps}
use open_smart_charge.Planner.{decide_should_charge}
use open_smart_charge.SmartCharging.Gates.{force_min_soc, force_climate}
use open_smart_charge.Lifecycle.{Resolved, decision_of}
use open_smart_charge.Base.Dict.{Dict}
use open_smart_charge.Lifecycle.Site.{Runtime}
use open_smart_charge.Lifecycle.Resolve.{
  Surroundings, LoadpointSettings, Basis, resolved_of, price_decision, is_smart,
}

-- The battery is known to be below the minimum.
abbrev pub BelowMin : Option ℕ → Option ℕ → Type 0
BelowMin (some soc) (some min_soc) = soc < min_soc
BelowMin _ _ = ⊥

-- The car climatises while it is connected.
abbrev pub IsHeating : Basis → Runtime → Type 0
IsHeating b r = (b.ctx.climate_active ≡ some true) × (r.state.live.connected ≡ true)

force_min_soc-BelowMin :
    (soc min_soc : Option ℕ) → (force_min_soc soc min_soc ≡ true) ↔ BelowMin soc min_soc
unfolding force_min_soc
force_min_soc-BelowMin none min_soc = (λ h. absurd (cc), λ h. absurd h)
force_min_soc-BelowMin (some soc) none = (λ h. absurd (cc), λ h. absurd h)
force_min_soc-BelowMin (some soc) (some m) = (λ h. ground arith, λ h. ground arith)

force_climate_iff :
    (climate : Option Bool) (connected : Bool)
    → (force_climate climate connected ≡ true) ↔ ((climate ≡ some true) × (connected ≡ true))
unfolding force_climate
force_climate_iff none connected = (λ h. absurd (cc), λ h. absurd (let e = h.0 in cc))
force_climate_iff (some false) connected = (λ h. absurd (cc), λ h. absurd (let e = h.0 in cc))
force_climate_iff (some true) connected = (λ h. (refl, h), λ h. h.1)

-- No energy is required, so that the price never charges.
no_energy :
    (s : Surroundings) (budget : ℕ) (lp : LoadpointSettings) (r : Runtime) (b : Basis)
    → b.energy.required ≡ 0
    → (price_decision s budget lp r.state b).should_charge ≡ false
unfolding price_decision decide_should_charge
no_energy s budget lp r b e = rw e refl

-- What a resolved loadpoint draws on a circuit of its own, within a budget.
abbrev pub draws : ℕ → Dict ℕ → Resolved → ℕ
draws budget commanded r = amps_of none (decision_of budget commanded r)

false_of : (b : Bool) → (b ≡ true → ⊥) → b ≡ false
false_of true h = absurd (h refl)
false_of false h = refl

-- The draw, by the parts of the decision.
abbrev draw_of : Mode → (below climate price : Bool) → ℕ → (reached pause : Bool) → ℕ
draw_of mode below climate price budget reached pause =
    bare_circuit_amps mode (if is_smart mode then some (below || (climate || price)) else none)
      (if is_smart mode && (climate && (not price && not below)) then min 6_000 budget else budget)
      reached pause

draw_forced :
    (mode : Mode) (below climate price : Bool) (budget : ℕ) (reached pause : Bool)
    → mode ≡ smart
    → below ≡ true
    → draw_of mode below climate price budget reached pause ≡ budget
unfolding bare_circuit_amps
draw_forced mode below climate price budget reached pause m e = rw (m, e) (ground arith)

draw_heating :
    (mode : Mode) (below climate price : Bool) (budget : ℕ) (reached pause : Bool)
    → mode ≡ smart
    → price ≡ false
    → below ≡ false
    → climate ≡ true
    → draw_of mode below climate price budget reached pause ≡ min 6_000 budget
unfolding bare_circuit_amps
draw_heating mode below climate price budget reached pause m e f g = rw (m, e, f, g) refl

draw_cheap :
    (mode : Mode) (below climate price : Bool) (budget : ℕ) (reached pause : Bool)
    → mode ≡ smart
    → price ≡ true
    → draw_of mode below climate price budget reached pause ≡ budget
unfolding bare_circuit_amps
draw_cheap mode below climate price budget reached pause m e = rw (m, e) (ground arith)

draw_idle :
    (mode : Mode) (below climate price : Bool) (budget : ℕ) (reached pause : Bool)
    → mode ≡ smart
    → price ≡ false
    → below ≡ false
    → climate ≡ false
    → draw_of mode below climate price budget reached pause ≡ 0
unfolding bare_circuit_amps
draw_idle mode below climate price budget reached pause m e f g = rw (m, e, f, g) refl

-- A loadpoint on a circuit of its own that is off draws nothing. In smart mode it draws the budget if its
-- battery is known to be below the minimum, whatever the price, or if the plan charges now; else a car
-- that heats draws 6 A, or the budget if that is less, and any other draws nothing. With no energy
-- required the plan does not charge. In fast mode the loadpoint draws the budget, unless the target is
-- reached and pauses it.
pub resolved_of-draws :
    (s : Surroundings) (budget : ℕ) (lp : LoadpointSettings) (r : Runtime) (b : Basis)
    (commanded : Dict ℕ)
    → let amps = draws budget commanded (resolved_of s budget lp r b).0 in
      let charges = (price_decision s budget lp r.state b).should_charge in
      (r.state.mode ≡ disabled → amps ≡ 0)
      × (r.state.mode ≡ smart → BelowMin b.ctx.estimated_soc r.state.min_soc → amps ≡ budget)
      × (r.state.mode ≡ smart → charges ≡ true → amps ≡ budget)
      × (r.state.mode ≡ smart
          → charges ≡ false
          → (BelowMin b.ctx.estimated_soc r.state.min_soc → ⊥)
          → IsHeating b r
          → amps ≡ min 6_000 budget)
      × (r.state.mode ≡ smart
          → charges ≡ false
          → (BelowMin b.ctx.estimated_soc r.state.min_soc → ⊥)
          → (IsHeating b r → ⊥)
          → amps ≡ 0)
      × (b.energy.required ≡ 0 → charges ≡ false)
      × (r.state.mode ≡ fast
          → amps ≡ (
              if (b.energy.required == 0) && (resolved_of s budget lp r b).0.pause_on_target
              then 0
              else budget))
unfolding amps_of decision_of bare_circuit_amps resolved_of
resolved_of-draws s budget lp r b commanded =
    let low = force_min_soc b.ctx.estimated_soc r.state.min_soc in
    let warm = force_climate b.ctx.climate_active r.state.live.connected in
    let cheap = (price_decision s budget lp r.state b).should_charge in
    let reached = b.energy.required == 0 in
    let pause = (resolved_of s budget lp r b).0.pause_on_target in
    (
      λ m. rw m refl,
      λ m below.
          draw_forced r.state.mode low warm cheap budget reached pause m
            ((force_min_soc-BelowMin _ _).1 below),
      λ m now. draw_cheap r.state.mode low warm cheap budget reached pause m now,
      λ m dear above heats.
          draw_heating r.state.mode low warm cheap budget reached pause m dear
            (false_of low (λ e. above ((force_min_soc-BelowMin _ _).0 e)))
            ((force_climate_iff _ _).1 heats),
      λ m dear above cold.
          draw_idle r.state.mode low warm cheap budget reached pause m dear
            (false_of low (λ e. above ((force_min_soc-BelowMin _ _).0 e)))
            (false_of warm (λ e. cold ((force_climate_iff _ _).0 e))),
      no_energy s budget lp r b,
      λ m. rw m refl,
    )
