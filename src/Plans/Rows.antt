-- ===== src/Plans/Rows.antt =====
-- What a row of the table says of a plan, when it is written and when it is patched.
use open_smart_charge.Base.{
  ℕ, ◌≡◌, refl, Bool, true, Option, none, some, String, List, [], arith, ◌==◌, get_or_else,
}
use open_smart_charge.Plans.{
  Plan, PlanInput, PlanPatch, PlanRow, DayKey, flag, row_to_plan, new_row, mask_patch, bit_patch,
  pause_patch, list_patch, patch_row, unless_false, mask_to_days, days_to_mask,
}

-- What the days of a plan become in the column.
abbrev stored_days : List DayKey → List DayKey
stored_days days = mask_to_days (days_to_mask days)

-- The plan that an input describes: what it leaves out is enabled, pauses, and names no vehicle.
abbrev pub plan_from : ℕ → String → PlanInput → Plan
plan_from id loadpoint_name i = record {
  id = id;
  loadpoint_name = loadpoint_name;
  days = stored_days i.days;
  ready_by = i.ready_by;
  target = i.target;
  unit = i.unit;
  enabled = get_or_else i.enabled true;
  vehicles = get_or_else i.vehicles [];
  pause_on_target = get_or_else i.pause_on_target true;
}

abbrev days_or : Option (List DayKey) → List DayKey → List DayKey
days_or none old = old
days_or (some days) old = stored_days days

-- The plan with the fields of a patch.
abbrev pub patch_plan : PlanPatch → Plan → Plan
patch_plan p old = record old {
  days = days_or p.days old.days;
  ready_by = get_or_else p.ready_by old.ready_by;
  target = get_or_else p.target old.target;
  unit = get_or_else p.unit old.unit;
  enabled = get_or_else p.enabled old.enabled;
  vehicles = get_or_else p.vehicles old.vehicles;
  pause_on_target = get_or_else p.pause_on_target old.pause_on_target;
}

enabled_of : (o : Option Bool) → (unless_false o == 1) ≡ get_or_else o true
enabled_of o = ground arith

pub row_to_plan-new_row :
    (id : ℕ) (n : String) (i : PlanInput) → row_to_plan (new_row id n i) ≡ plan_from id n i
unfolding row_to_plan new_row
row_to_plan-new_row id n i = rw (enabled_of i.enabled, enabled_of i.pause_on_target) refl

days_patch :
    (o : Option (List DayKey)) (m : ℕ) → mask_to_days (mask_patch o m) ≡ days_or o (mask_to_days m)
days_patch none m = refl
days_patch (some days) m = refl

enabled_patch : (o : Option Bool) (n : ℕ) → (bit_patch o n == 1) ≡ get_or_else o (n == 1)
enabled_patch o n = ground arith

pause_of : (o : Option Bool) (n : Option ℕ) → flag (pause_patch o n) ≡ get_or_else o (flag n)
pause_of o n = ground arith

vehicles_patch :
    (o n : Option (List String))
    → get_or_else (list_patch o n) [] ≡ get_or_else o (get_or_else n [])
vehicles_patch none n = refl
vehicles_patch (some vs) n = refl

pub row_to_plan-patch_row :
    (p : PlanPatch) (r : PlanRow) → row_to_plan (patch_row p r) ≡ patch_plan p (row_to_plan r)
unfolding row_to_plan patch_row
row_to_plan-patch_row p r =
    rw
      (
        days_patch p.days r.days_mask,
        enabled_patch p.enabled r.enabled,
        vehicles_patch p.vehicles r.target_vehicles,
        pause_of p.pause_on_target r.pause_on_target,
      )
      refl
