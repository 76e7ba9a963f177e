-- ===== src/Planner/Energy.antt =====
-- `plan` as a whole: it covers the time to the target and chooses enough quarters for the energy.
use native.Mathlib.Nat.{div-mul-le_self, lt-div-mul-add, mul-le-mul_right}
use open_smart_charge.Base.{
  ℕ, zero, suc, min, Bool-cases, inl, inr, leb, ◌==◌, false, refl, ◌+◌, ◌-◌, ◌*◌, ◌/◌, ◌≤◌, ◌<◌,
  ◌≡◌, ◌⊎◌, List, [], ◌∷◌, arith, length, count_by,
}
use open_smart_charge.Planner.{
  Slot, TariffSlot, PlannerInput, plan, plan_with, latest_start_plan, mark_from, generate_slots,
  slots_needed, charge_rate, round_up,
}
use open_smart_charge.Planner.Slots.{Cover, generate_slots-Cover}
use open_smart_charge.Planner.Cheapest.{count-cheapest_slots_plan}

slots_needed-le : (required rate total : ℕ) → slots_needed required rate total ≤ total
unfolding slots_needed
slots_needed-le required rate total = ground arith

-- Rounding up gives the least number of quarters.
ceil_least :
    (a rate : ℕ)
    → 0 < rate
    → (a ≤ (a + rate - 1) / rate * rate) × ((a + rate - 1) / rate * rate < a + rate)
ceil_least a rate h = (
  omega (arith, lt-div-mul-add {a = a + rate - 1} h),
  omega (arith, div-mul-le_self (a + rate - 1) rate),
)

-- Fewer quarters than the rounded number fall short.
short_of : (a rate n : ℕ) → 0 < rate → n < (a + rate - 1) / rate → n * rate < a
short_of a rate n h u =
    let (enough, least) = ceil_least a rate h in
    let c = (a + rate - 1) / rate in
    let step : suc n * rate ≤ c * rate = mul-le-mul_right rate u in omega (arith, step, least)

-- The number of quarters is right: charging at the rate through that many delivers the energy, and one
-- fewer would not; or all of them are needed, and fall short; or no energy is required.
abbrev pub Suffices : (required rate total n : ℕ) → Type 0
Suffices required rate total n =
    (required * 4000 ≤ n * rate) × (n * rate < required * 4000 + rate)
    ⊎ ((n ≡ total) × (n * rate < required * 4000) ⊎ ((required ≡ 0) × (n ≡ 0)))

min-Suffices :
    (required rate total : ℕ)
    → 0 < rate
    → Suffices required rate total (min ((required * 4000 + rate - 1) / rate) total)
min-Suffices required rate total h =
    let c = (required * 4000 + rate - 1) / rate in
    elim (Bool-cases (leb c total)) [
      | inl le ↦
          let same : min c total ≡ c = ground (arith, le) in
          rw same (inl (ceil_least (required * 4000) rate h))
      | inr lt ↦
          let less : total < c = ground (arith, lt) in
          let same : min c total ≡ total = omega (arith, less) in
          rw same (inr (inl (refl, short_of (required * 4000) rate total h less)))
    ]

slots_needed-Suffices :
    (required rate total : ℕ) → Suffices required rate total (slots_needed required rate total)
unfolding slots_needed
slots_needed-Suffices required zero total = ground arith
slots_needed-Suffices required (suc r) total =
    let charges : (suc r == 0) ≡ false = ground arith in
    rw charges (min-Suffices required (suc r) total (omega arith))

count-mark_from :
    (start i : ℕ) (slots : List Slot)
    → count_by (λ p. p.should_charge) (mark_from start i slots) ≡ length slots - (start - i)
unfolding mark_from
count-mark_from start i [] = omega arith
count-mark_from start i (s ∷ ss) = ground (arith, count-mark_from start (i + 1) ss)

count-plan_with :
    (prices : List TariffSlot) (c to needed : ℕ) (slots : List Slot)
    → Cover c to slots
    → needed ≤ length slots
    → count_by (λ p. p.should_charge) (plan_with prices slots needed) ≡ needed
unfolding latest_start_plan
count-plan_with [] c to needed slots cover h =
    omega (arith, count-mark_from (length slots - needed) 0 slots)
count-plan_with (p ∷ ps) c to needed slots cover h =
    count-cheapest_slots_plan (p ∷ ps) c to needed slots cover h

-- The plan chooses quarters for the required energy: charging at the rate of the charger in the chosen
-- ones delivers the energy and one quarter fewer would not; or it charges in every quarter before the
-- target time and all of them do not deliver it; or no energy is required, and it charges in none. (A
-- quarter at `rate` mW delivers `rate / 4000` Wh.)
pub plan_delivers :
    (i : PlannerInput)
    → Suffices i.required
        (charge_rate i.max_current i.phases)
        (length (generate_slots i.now i.target_time))
        (count_by (λ p. p.should_charge) (plan i))
unfolding plan
plan_delivers i =
    let slots = generate_slots i.now i.target_time in
    let rate = charge_rate i.max_current i.phases in
    let needed = slots_needed i.required rate (length slots) in
    let (a, b, c, cover) = generate_slots-Cover i.now i.target_time in
    let e =
      count-plan_with i.price_slots (round_up i.now) i.target_time needed slots cover
        (slots_needed-le i.required rate (length slots)) in
    rw e (slots_needed-Suffices i.required rate (length slots))
