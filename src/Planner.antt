-- ===== src/Planner.antt =====
-- src/core/planner.ts and `decideShouldCharge` of src/core/smart-charging/decide.ts. Times are ms epochs,
-- energies Wh, currents mA, prices integers of any small unit; a missing price stands for `Infinity`.
-- The zone of the process is taken to lie a whole number of quarters from UTC, with no shift of its
-- clock before the target time, so that the local quarters are those of the epoch.
pub mod Sorting
pub mod Slots
pub mod Cheapest
pub mod Energy
mod Tests
use open_smart_charge.Base.{
  ℕ, zero, suc, ◌+◌, ◌-◌, ◌*◌, ◌/◌, ◌%◌, min, Bool, true, false, ◌&&◌, Option, none, some, List, [],
  ◌∷◌, ltb, leb, ◌==◌, get_or_else, if◌then◌else◌, length, take, any_by, find_by, map,
}
use open_smart_charge.Base.Int.{ℤ, leb_ℤ}
use open_smart_charge.Balancer.{Mode, disabled, smart, fast}

pub record TariffSlot : Type 0 where
  pub start : ℕ
  pub stop : ℕ
  pub price : ℤ

pub record Slot : Type 0 where
  pub start : ℕ
  pub stop : ℕ

pub record PlannedSlot : Type 0 where
  pub start : ℕ
  pub stop : ℕ
  pub should_charge : Bool

-- A slot with its price; `none` is `Infinity`.
pub record PricedSlot : Type 0 where
  pub start : ℕ
  pub stop : ℕ
  pub price : Option ℤ

-- 15 minutes.
abbrev pub quarter : ℕ
quarter = 900_000

-- The first quarter at or after an instant.
unfoldable pub round_up : ℕ → ℕ
round_up from = if from % quarter == 0 then from else from + (quarter - from % quarter)

-- The loop of `generateSlots`, on fuel.
unfoldable pub slots_from : ℕ → ℕ → ℕ → List Slot
slots_from zero cursor to = []
slots_from (suc f) cursor to =
    let rest = slots_from f (cursor + quarter) to in
    if ltb cursor to then record { start = cursor; stop = cursor + quarter } ∷ rest else []

unfoldable pub generate_slots : ℕ → ℕ → List Slot
generate_slots from to =
    let cursor = round_up from in slots_from ((to - cursor) / quarter + 1) cursor to

-- 1000 times `chargeRateKW` in W: mA times phases times 230 V.
unfoldable pub charge_rate : ℕ → ℕ → ℕ
charge_rate max_current phases = max_current * phases * 230

-- `Math.min(Math.ceil(requiredKWh / rateKW * 4), total)`. A rate of zero gives `Infinity`, or `NaN`,
-- which selects nothing, if no energy is required.
unfoldable pub slots_needed : ℕ → ℕ → ℕ → ℕ
slots_needed required rate total =
    if rate == 0
    then (if required == 0 then 0 else total)
    else min ((required * 4000 + rate - 1) / rate) total

-- `slots.map((slot, i) => i >= startIndex)`, from an index on.
unfoldable pub mark_from : ℕ → ℕ → List Slot → List PlannedSlot
mark_from start_index i [] = []
mark_from start_index i (s ∷ ss) =
    record { start = s.start; stop = s.stop; should_charge = leb start_index i }
    ∷ mark_from start_index (i + 1) ss

unfoldable pub latest_start_plan : List Slot → ℕ → List PlannedSlot
latest_start_plan slots needed = mark_from (length slots - needed) 0 slots

abbrev pub covers : ℕ → TariffSlot → Bool
covers t p = leb p.start t && ltb t p.stop

abbrev pub price_of : Option TariffSlot → Option ℤ
price_of none = none
price_of (some p) = some p.price

unfoldable pub with_price : List TariffSlot → Slot → PricedSlot
with_price prices s = record {
  start = s.start;
  stop = s.stop;
  price = price_of (find_by (covers s.start) prices);
}

-- `a.pricePerKWh - b.pricePerKWh <= 0`, or not a number.
abbrev pub not_dearer : Option ℤ → Option ℤ → Bool
not_dearer a none = true
not_dearer none (some b) = false
not_dearer (some a) (some b) = leb_ℤ a b

-- The stable sort by price: an element goes before the first one that is not cheaper.
unfoldable pub insert_by_price : PricedSlot → List PricedSlot → List PricedSlot
insert_by_price x [] = x ∷ []
insert_by_price x (y ∷ ys) =
    if not_dearer x.price y.price then x ∷ y ∷ ys else y ∷ insert_by_price x ys

unfoldable pub sort_by_price : List PricedSlot → List PricedSlot
sort_by_price [] = []
sort_by_price (x ∷ xs) = insert_by_price x (sort_by_price xs)

-- `cheapestStarts.has(…)`
abbrev pub has_start : List PricedSlot → ℕ → Bool
has_start chosen t = any_by (λ c. c.start == t) chosen

unfoldable pub cheapest_slots_plan : List Slot → ℕ → List TariffSlot → List PlannedSlot
cheapest_slots_plan slots needed prices =
    let priced = map (with_price prices) slots in
    let chosen = take needed (sort_by_price priced) in
    map (λ s. record { start = s.start; stop = s.stop; should_charge = has_start chosen s.start })
      priced

pub record PlannerInput : Type 0 where
  pub required : ℕ
  pub target_time : ℕ
  pub max_current : ℕ
  pub phases : ℕ
  pub price_slots : List TariffSlot
  pub now : ℕ

abbrev plan_with : List TariffSlot → List Slot → ℕ → List PlannedSlot
plan_with [] slots needed = latest_start_plan slots needed
plan_with (p ∷ ps) slots needed = cheapest_slots_plan slots needed (p ∷ ps)

unfoldable pub plan : PlannerInput → List PlannedSlot
plan i =
    let slots = generate_slots i.now i.target_time in
    let needed = slots_needed i.required (charge_rate i.max_current i.phases) (length slots) in
    plan_with i.price_slots slots needed

pub record PlanSeriesSlot : Type 0 where
  pub start : ℕ
  pub stop : ℕ
  pub price : ℤ
  pub should_charge : Bool

abbrev in_series : Mode → List PlannedSlot → TariffSlot → Bool
in_series fast planned p = true
in_series disabled planned p = false
in_series smart planned p =
    any_by (λ s. s.should_charge && (ltb s.start p.stop && ltb p.start s.stop)) planned

unfoldable pub build_plan_series : List TariffSlot → List PlannedSlot → Mode → List PlanSeriesSlot
build_plan_series prices planned mode =
    map
      (λ p. record {
        start = p.start;
        stop = p.stop;
        price = p.price;
        should_charge = in_series mode planned p;
      })
      prices

pub record DecideResult : Type 0 where
  pub should_charge : Bool
  pub planned_slots : List PlannedSlot

abbrev head_charge : List PlannedSlot → Bool
head_charge [] = true
head_charge (s ∷ ss) = s.should_charge

abbrev current_charge : Option PlannedSlot → List PlannedSlot → Bool
current_charge none planned = head_charge planned
current_charge (some s) planned = s.should_charge

unfoldable pub decide_should_charge : PlannerInput → DecideResult
decide_should_charge i =
    if i.required == 0
    then record { should_charge = false; planned_slots = [] }
    else let planned = plan i in
      record {
        should_charge =
            current_charge (find_by (λ s. leb s.start i.now && ltb i.now s.stop) planned) planned;
        planned_slots = planned;
      }
