-- ===== src/Plans/Tests.antt =====
-- Plans at concrete inputs.
use open_smart_charge.Base.{ℕ, ◌<◌, ◌≡◌, refl, true, false, none, some, [], ◌∷◌, arith}
use open_smart_charge.LocalTime.{LocalParts}
use open_smart_charge.Plans.{
  Plan, PlanInput, Table, mon, tue, sat, sun, pct, days_to_mask, mask_to_days, create_plan,
  select_active_plan, new_row, add_days, qualifies, earliest, ready_by_minutes, plan_applies,
}
use open_smart_charge.Plans.Rows.{plan_from}
use open_smart_charge.Plans.Active.{Governs, select_active_plan-Governs}
use open_smart_charge.Plans.Store.{Implements, plans_implement}

sunday_first : mask_to_days (days_to_mask (sun ∷ mon ∷ mon ∷ [])) ≡ mon ∷ sun ∷ []
unfolding days_to_mask add_days mask_to_days
sunday_first = refl

abbrev morning : Plan
morning = record {
  id = 1;
  loadpoint_name = "garage";
  days = mon ∷ tue ∷ [];
  ready_by = record { hour = 7; minute = 30 };
  target = 80;
  unit = pct;
  enabled = true;
  vehicles = "enyaq" ∷ [];
  pause_on_target = true;
}

abbrev evening : Plan
evening = record morning { id = 2; ready_by = record { hour = 18; minute = 0 }; vehicles = [] }

abbrev monday : ℕ → LocalParts
monday hour = record { weekday = 0; hour = hour; minute = 0 }

before_work : select_active_plan (evening ∷ morning ∷ []) (monday 6) (some "enyaq") ≡ some morning
unfolding select_active_plan qualifies earliest ready_by_minutes plan_applies
before_work = refl

select_active_plan-Governs_example :
    Governs
      (monday 6)
      (some "enyaq")
      (evening ∷ morning ∷ [])
      (select_active_plan (evening ∷ morning ∷ []) (monday 6) (some "enyaq"))
select_active_plan-Governs_example =
    select_active_plan-Governs (evening ∷ morning ∷ []) (monday 6) (some "enyaq")

abbrev weekend : PlanInput
weekend = record {
  days = sat ∷ sun ∷ [];
  ready_by = record { hour = 9; minute = 0 };
  target = 90;
  unit = pct;
  enabled = none;
  vehicles = none;
  pause_on_target = some false;
}

abbrev one_plan : Table
one_plan = record { rows = new_row 1 "garage" weekend ∷ []; next_id = 2 }

first_id : (new_row 1 "garage" weekend).id < 2
unfolding new_row
first_id = omega arith

plans_implement_example : Implements one_plan
plans_implement_example = plans_implement one_plan (first_id, tt)

created : (create_plan one_plan "garage" weekend).1 ≡ some (plan_from 2 "garage" weekend)
created = ((plans_implement one_plan (first_id, tt)).0 "garage" weekend).1
