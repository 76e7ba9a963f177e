-- ===== src/Planner/Tests.antt =====
-- Plans at concrete inputs.
use open_smart_charge.Base.{
  ◌+◌, ◌%◌, ◌≤◌, ◌<◌, ◌≡◌, refl, Bool, true, false, List, [], ◌∷◌, arith, All, length, count_by,
  map,
}
use open_smart_charge.Base.Int.{pos, negsuc}
use open_smart_charge.Planner.{
  TariffSlot, Slot, PlannedSlot, PlannerInput, plan, generate_slots, slots_from, round_up,
  slots_needed, charge_rate, cheapest_slots_plan, sort_by_price, insert_by_price, with_price,
  decide_should_charge, quarter,
}
use open_smart_charge.Planner.Slots.{Cover, generate_slots-Cover}
use open_smart_charge.Planner.Cheapest.{
  Preferred, count-cheapest_slots_plan, cheapest_slots_plan_cheapest,
}
use open_smart_charge.Planner.Energy.{Suffices, plan_delivers}

abbrev hours : List TariffSlot
hours =
    record { start = 0; stop = 1_800_000; price = pos 90 }
    ∷ record { start = 1_800_000; stop = 3_600_000; price = negsuc 4 }
    ∷ []

-- 2 kWh with three phases of 10 A, from a minute past the hour to the next hour.
abbrev request : PlannerInput
request = record {
  required = 2000;
  target_time = 3_600_000;
  max_current = 10_000;
  phases = 3;
  price_slots = hours;
  now = 60_000;
}

abbrev third : Slot
third = record { start = 1_800_000; stop = 2_700_000 }

abbrev last : Slot
last = record { start = 2_700_000; stop = 3_600_000 }

abbrev quarters : List Slot
quarters = record { start = 900_000; stop = 1_800_000 } ∷ third ∷ last ∷ []

abbrev marks : List PlannedSlot → List Bool
marks = map (λ p. p.should_charge)

cheap_half : marks (plan request) ≡ false ∷ true ∷ true ∷ []
unfolding plan generate_slots slots_from round_up slots_needed charge_rate cheapest_slots_plan
    sort_by_price insert_by_price with_price
cheap_half = refl

waits_for_price : (decide_should_charge request).should_charge ≡ false
unfolding decide_should_charge plan generate_slots slots_from round_up slots_needed charge_rate
    cheapest_slots_plan sort_by_price insert_by_price with_price
waits_for_price = refl

quarters-Cover : Cover 900_000 3_600_000 quarters
quarters-Cover = omega arith

generate_slots-Cover_example :
    (60_000 ≤ round_up 60_000)
    × (round_up 60_000 < 60_000 + quarter)
    × (round_up 60_000 % quarter ≡ 0)
    × Cover (round_up 60_000) 3_600_000 (generate_slots 60_000 3_600_000)
generate_slots-Cover_example = generate_slots-Cover 60_000 3_600_000

count-cheapest_slots_plan_example :
    count_by (λ p. p.should_charge) (cheapest_slots_plan quarters 2 hours) ≡ 2
count-cheapest_slots_plan_example =
    count-cheapest_slots_plan hours 900_000 3_600_000 2 quarters quarters-Cover (omega arith)

cheapest_slots_plan_cheapest_example :
    let planned = cheapest_slots_plan quarters 2 hours in
    All (λ p. All (Preferred hours p) planned) planned
cheapest_slots_plan_cheapest_example =
    cheapest_slots_plan_cheapest hours 900_000 3_600_000 2 quarters quarters-Cover

plan_delivers_example :
    Suffices 2000 6_900_000
      (length (generate_slots 60_000 3_600_000))
      (count_by (λ p. p.should_charge) (plan request))
unfolding charge_rate
plan_delivers_example = plan_delivers request
