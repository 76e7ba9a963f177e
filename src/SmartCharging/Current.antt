-- ===== src/SmartCharging/Current.antt =====
-- src/core/smart-charging/current.ts: the amps that a circuit may draw. Currents are in mA; the daytime
-- fraction is in thousandths, and its product with the breaker is cut to whole mA.
use native.Mathlib.Nat.{div-mul-le_self}
use open_smart_charge.Base.{
  ℕ, ◌+◌, ◌*◌, ◌/◌, ◌≤◌, ◌≡◌, ◌⊎◌, inl, inr, Bool, true, false, Option, none, some, arith, ltb,
  get_or_else, if◌then◌else◌, Bool-cases,
}
use open_smart_charge.Base.Int.{
  ℤ, pos, pos_part, ◌+ℤ◌, ◌-ℤ◌, ◌≤ℤ◌, min_ℤ, max_ℤ, +ℤ_parts, -ℤ_parts,
}
use open_smart_charge.LocalTime.{is_night}

pub data CurrentRung : Type 0 where
  live_meter historical_worstcase static_tod : CurrentRung

-- `Resolved<number, CurrentRung>`
pub record Resolved : Type 0 where
  pub value : ℕ
  pub source : CurrentRung
  pub is_degraded : Bool

pub record CurrentInputs : Type 0 where
  -- The local hour of `now`.
  pub hour : ℕ
  pub max_current : ℕ
  pub main_breaker : Option ℕ
  pub live_max_phase : Option ℕ
  pub own_draw : Option ℕ
  pub worst_case_load : Option ℕ
  pub reserve : Option ℕ
  pub night_start : ℕ
  pub night_end : ℕ
  pub night_margin : Option ℕ
  pub daytime_fraction : Option ℕ
  pub min_current : Option ℕ

abbrev pub iec_min_a : ℕ
iec_min_a = 6000

abbrev pub min_of : CurrentInputs → ℕ
min_of i = get_or_else i.min_current iec_min_a

abbrev pub reserve_of : CurrentInputs → ℕ
reserve_of i = get_or_else i.reserve 0

-- Clamped to the charger's range, and zero below the minimum.
unfoldable pub settle : CurrentInputs → ℤ → ℕ
settle i amps =
    let capped = pos_part (max_ℤ (pos 0) (min_ℤ amps (pos i.max_current))) in
    if ltb capped (min_of i) then 0 else capped

unfoldable pub live_rung : CurrentInputs → ℕ → ℕ → Resolved
live_rung i main live =
    let free = pos main -ℤ pos (reserve_of i) -ℤ pos live +ℤ pos (get_or_else i.own_draw 0) in
    record { value = settle i free; source = live_meter; is_degraded = false }

unfoldable pub history_rung : CurrentInputs → ℕ → ℕ → Resolved
history_rung i main worst = record {
  value = settle i (pos main -ℤ pos (reserve_of i) -ℤ pos worst -ℤ pos 1000);
  source = historical_worstcase;
  is_degraded = true;
}

unfoldable pub static_rung : CurrentInputs → ℕ → Resolved
static_rung i main =
    let night = is_night i.hour i.night_start i.night_end in
    let budget =
      if night
      then pos main -ℤ pos (get_or_else i.night_margin 3000)
      else pos (main * get_or_else i.daytime_fraction 500 / 1000) in
    record { value = settle i budget; source = static_tod; is_degraded = true }

-- The ladder: on the fuse, the live load and the worst load of this hour, where they are known.
unfoldable pub ladder : CurrentInputs → Option ℕ → Option ℕ → Option ℕ → Resolved
ladder i none live worst = record {
  value = settle i (pos i.max_current);
  source = static_tod;
  is_degraded = false;
}
ladder i (some main) (some live) worst = live_rung i main live
ladder i (some main) none (some worst) = history_rung i main worst
ladder i (some main) none none = static_rung i main

unfoldable pub resolve_current_budget : CurrentInputs → Resolved
resolve_current_budget i = ladder i i.main_breaker i.live_max_phase i.worst_case_load

-- A budget is zero, or a current from the minimum to the charger's ceiling.
abbrev pub IsBudget : CurrentInputs → ℕ → Type 0
IsBudget i a = (a ≡ 0) ⊎ ((min_of i ≤ a) × (a ≤ i.max_current))

settle-IsBudget : (i : CurrentInputs) (amps : ℤ) → IsBudget i (settle i amps)
unfolding settle max_ℤ min_ℤ
settle-IsBudget i amps = ground arith

settle-le : (i : CurrentInputs) (amps : ℤ) → (settle i amps ≡ 0) ⊎ (pos (settle i amps) ≤ℤ amps)
unfolding settle max_ℤ min_ℤ
settle-le i amps = ground arith

-- What a blind budget leaves: the margin at night, and by day all but the fraction of the fuse.
abbrev pub LeavesRoom : CurrentInputs → Bool → ℕ → ℕ → Type 0
LeavesRoom i true main v = (v ≡ 0) ⊎ (v + get_or_else i.night_margin 3000 ≤ main)
LeavesRoom i false main v = v * 1000 ≤ main * get_or_else i.daytime_fraction 500

-- What the budget leaves of the fuse, by what is known.
abbrev pub KeepsFuse : CurrentInputs → Option ℕ → Option ℕ → Option ℕ → ℕ → Type 0
KeepsFuse i none live worst v = Unit
KeepsFuse i (some main) (some live) worst v =
    (v ≡ 0) ⊎ (v + reserve_of i + live ≤ main + get_or_else i.own_draw 0)
KeepsFuse i (some main) none (some worst) v = (v ≡ 0) ⊎ (v + reserve_of i + worst + 1000 ≤ main)
KeepsFuse i (some main) none none v =
    (v ≤ main) × LeavesRoom i (is_night i.hour i.night_start i.night_end) main v

ladder-IsBudget : (i : CurrentInputs) (m l w : Option ℕ) → IsBudget i (ladder i m l w).value
unfolding ladder live_rung history_rung static_rung
ladder-IsBudget i none l w = settle-IsBudget i _
ladder-IsBudget i (some m) (some l) w = settle-IsBudget i _
ladder-IsBudget i (some m) none (some w) = settle-IsBudget i _
ladder-IsBudget i (some m) none none = settle-IsBudget i _

part_of : (main f v : ℕ) → v ≤ main * f / 1000 → v * 1000 ≤ main * f
part_of main f v h = omega (arith, div-mul-le_self (main * f) 1000)

part_le : (main f : ℕ) → f ≤ 1000 → main * f / 1000 ≤ main
part_le main f h = grind arith

ladder-KeepsFuse :
    (i : CurrentInputs) (m l w : Option ℕ)
    → get_or_else i.daytime_fraction 500 ≤ 1000
    → KeepsFuse i m l w (ladder i m l w).value
unfolding ladder live_rung history_rung static_rung
ladder-KeepsFuse i none l w h = tt
ladder-KeepsFuse i (some m) (some l) w h =
    let a = pos m -ℤ pos (reserve_of i) in
    let b = a -ℤ pos l in
    let own = pos (get_or_else i.own_draw 0) in
    omega (
      arith,
      settle-le i (b +ℤ own),
      +ℤ_parts b own,
      -ℤ_parts a (pos l),
      -ℤ_parts (pos m) (pos (reserve_of i)),
    )
ladder-KeepsFuse i (some m) none (some w) h =
    let a = pos m -ℤ pos (reserve_of i) in
    let b = a -ℤ pos w in
    omega (
      arith,
      settle-le i (b -ℤ pos 1000),
      -ℤ_parts b (pos 1000),
      -ℤ_parts a (pos w),
      -ℤ_parts (pos m) (pos (reserve_of i)),
    )
ladder-KeepsFuse i (some m) none none h =
    let margin = get_or_else i.night_margin 3000 in
    let day = m * get_or_else i.daytime_fraction 500 / 1000 in
    elim (Bool-cases (is_night i.hour i.night_start i.night_end)) [
      | inl night ↦
          let le = settle-le i (pos m -ℤ pos margin) in
          let parts = -ℤ_parts (pos m) (pos margin) in
          rw night (omega (arith, le, parts), omega (arith, le, parts))
      | inr by_day ↦
          let f = get_or_else i.daytime_fraction 500 in
          let low : settle i (pos day) ≤ day = omega (arith, settle-le i (pos day)) in
          rw by_day (omega (arith, low, part_le m f h), part_of m f (settle i (pos day)) low)
    ]

-- Whichever rung answers, the budget is zero or lies between the minimum and the charger's ceiling.
-- With a known fuse, a budget that is not zero leaves room under it: for the reserve and the load
-- beside the chargers' own draw where the load is known live, for the reserve, the worst load of the
-- hour and 1 A where only that is known, and otherwise for the margin at night, while by day it is at
-- most the fraction of the fuse. The daytime fraction is at most 1.
pub resolve_current_budget_safe :
    (i : CurrentInputs)
    → get_or_else i.daytime_fraction 500 ≤ 1000
    → let v = (resolve_current_budget i).value in
      IsBudget i v × KeepsFuse i i.main_breaker i.live_max_phase i.worst_case_load v
unfolding resolve_current_budget
resolve_current_budget_safe i h = (
  ladder-IsBudget i i.main_breaker i.live_max_phase i.worst_case_load,
  ladder-KeepsFuse i i.main_breaker i.live_max_phase i.worst_case_load h,
)
