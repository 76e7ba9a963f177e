-- ===== src/Plans.antt =====
-- src/core/plans.ts: recurring charging plans, their table and the choice of the plan that governs now.
-- A `readyBy` text "HH:MM" is its hour and minute, a `target_vehicles` text its list of names (NULL and
-- bad JSON are `none`), and the columns `created_at` and `updated_at` are left out.
pub mod Days
pub mod Rows
pub mod Store
pub mod Active
mod Tests
use Prim.Native.Nat.{bit_and, bit_or}
use open_smart_charge.Base.{
  ℕ, zero, suc, ◌+◌, ◌*◌, ◌^◌, ◌≡◌, Bool, true, false, ◌&&◌, ◌||◌, not, Option, none, some, String,
  List, [], ◌∷◌, ◌++◌, ◌==◌, ltb, leb, get_or_else, if◌then◌else◌, map, filter_by, any_by, find_by,
  get_elem?, str_eq,
}
use open_smart_charge.LocalTime.{LocalParts, ms_until_local_time}

pub data PlanUnit : Type 0 where
  pct km kwh : PlanUnit

pub data DayKey : Type 0 where
  mon tue wed thu fri sat sun : DayKey

abbrev pub day_keys : List DayKey
day_keys = mon ∷ tue ∷ wed ∷ thu ∷ fri ∷ sat ∷ sun ∷ []

-- `DAY_KEYS.indexOf(d)`, which finds every day.
abbrev pub index_of : DayKey → ℕ
index_of mon = 0
index_of tue = 1
index_of wed = 2
index_of thu = 3
index_of fri = 4
index_of sat = 5
index_of sun = 6

abbrev pub same_day : DayKey → DayKey → Bool
same_day d e = index_of d == index_of e

abbrev pub has_day : List DayKey → DayKey → Bool
has_day days d = any_by (λ e. same_day e d) days

-- `mask | (1 << i)` over the days.
unfoldable pub add_days : ℕ → List DayKey → ℕ
add_days mask [] = mask
add_days mask (d ∷ ds) = add_days (bit_or mask (2 ^ index_of d)) ds

unfoldable pub days_to_mask : List DayKey → ℕ
days_to_mask days = add_days 0 days

-- `(mask & (1 << i)) !== 0`
abbrev pub in_mask : ℕ → DayKey → Bool
in_mask mask d = not (bit_and mask (2 ^ index_of d) == 0)

unfoldable pub mask_to_days : ℕ → List DayKey
mask_to_days mask = filter_by (in_mask mask) day_keys

pub record ReadyBy : Type 0 where
  pub hour : ℕ
  pub minute : ℕ

pub record Plan : Type 0 where
  pub id : ℕ
  pub loadpoint_name : String
  pub days : List DayKey
  pub ready_by : ReadyBy
  pub target : ℕ
  pub unit : PlanUnit
  pub enabled : Bool
  pub vehicles : List String
  pub pause_on_target : Bool

pub record PlanInput : Type 0 where
  pub days : List DayKey
  pub ready_by : ReadyBy
  pub target : ℕ
  pub unit : PlanUnit
  pub enabled : Option Bool
  pub vehicles : Option (List String)
  pub pause_on_target : Option Bool

pub record PlanPatch : Type 0 where
  pub days : Option (List DayKey)
  pub ready_by : Option ReadyBy
  pub target : Option ℕ
  pub unit : Option PlanUnit
  pub enabled : Option Bool
  pub vehicles : Option (List String)
  pub pause_on_target : Option Bool

pub record PlanRow : Type 0 where
  pub id : ℕ
  pub loadpoint_name : String
  pub days_mask : ℕ
  pub ready_by : ReadyBy
  pub target_value : ℕ
  pub target_unit : PlanUnit
  pub enabled : ℕ
  pub target_vehicles : Option (List String)
  pub pause_on_target : Option ℕ

-- The table with the next key of its AUTOINCREMENT.
pub record Table : Type 0 where
  pub rows : List PlanRow
  pub next_id : ℕ

abbrev flag : Option ℕ → Bool
flag none = true
flag (some n) = n == 1

unfoldable pub row_to_plan : PlanRow → Plan
row_to_plan r = record {
  id = r.id;
  loadpoint_name = r.loadpoint_name;
  days = mask_to_days r.days_mask;
  ready_by = r.ready_by;
  target = r.target_value;
  unit = r.target_unit;
  enabled = r.enabled == 1;
  vehicles = get_or_else r.target_vehicles [];
  pause_on_target = flag r.pause_on_target;
}

abbrev plan_of : Option PlanRow → Option Plan
plan_of none = none
plan_of (some r) = some (row_to_plan r)

abbrev pub find_row : ℕ → List PlanRow → Option PlanRow
find_row id rows = find_by (λ r. r.id == id) rows

unfoldable pub get_plan : Table → ℕ → Option Plan
get_plan t id = plan_of (find_row id t.rows)

-- `x === false ? 0 : 1`
abbrev pub unless_false : Option Bool → ℕ
unless_false (some false) = 0
unless_false _ = 1

unfoldable pub new_row : ℕ → String → PlanInput → PlanRow
new_row id loadpoint_name i = record {
  id = id;
  loadpoint_name = loadpoint_name;
  days_mask = days_to_mask i.days;
  ready_by = i.ready_by;
  target_value = i.target;
  target_unit = i.unit;
  enabled = unless_false i.enabled;
  target_vehicles = some (get_or_else i.vehicles []);
  pause_on_target = some (unless_false i.pause_on_target);
}

unfoldable pub create_plan : Table → String → PlanInput → Table × Option Plan
create_plan t loadpoint_name i =
    let t' : Table = record {
      rows = t.rows ++ (new_row t.next_id loadpoint_name i ∷ []);
      next_id = t.next_id + 1;
    } in
    (t', get_plan t' t.next_id)

abbrev bit : Bool → ℕ
bit true = 1
bit false = 0

abbrev mask_patch : Option (List DayKey) → ℕ → ℕ
mask_patch none old = old
mask_patch (some days) old = days_to_mask days

abbrev bit_patch : Option Bool → ℕ → ℕ
bit_patch none old = old
bit_patch (some b) old = bit b

abbrev pause_patch : Option Bool → Option ℕ → Option ℕ
pause_patch none old = old
pause_patch (some b) old = some (bit b)

abbrev list_patch : Option (List String) → Option (List String) → Option (List String)
list_patch none old = old
list_patch (some vs) old = some vs

unfoldable pub patch_row : PlanPatch → PlanRow → PlanRow
patch_row p r = record r {
  days_mask = mask_patch p.days r.days_mask;
  ready_by = get_or_else p.ready_by r.ready_by;
  target_value = get_or_else p.target r.target_value;
  target_unit = get_or_else p.unit r.target_unit;
  enabled = bit_patch p.enabled r.enabled;
  target_vehicles = list_patch p.vehicles r.target_vehicles;
  pause_on_target = pause_patch p.pause_on_target r.pause_on_target;
}

-- `UPDATE … WHERE id = ?`
unfoldable pub patch_rows : ℕ → PlanPatch → List PlanRow → List PlanRow
patch_rows id p [] = []
patch_rows id p (r ∷ rs) = (if r.id == id then patch_row p r else r) ∷ patch_rows id p rs

unfoldable pub update_plan : Table → ℕ → PlanPatch → Table × Option Plan
update_plan t id p =
    let t' : Table = record t { rows = patch_rows id p t.rows } in (t', get_plan t' id)

unfoldable pub delete_plan : Table → ℕ → Table × Bool
delete_plan t id =
    (record t { rows = filter_by (λ r. not (r.id == id)) t.rows }, any_by (λ r. r.id == id) t.rows)

unfoldable pub ready_by_minutes : ReadyBy → ℕ
ready_by_minutes r = r.hour * 60 + r.minute

abbrev pub includes : List String → String → Bool
includes names n = any_by (λ m. str_eq m n) names

abbrev is_empty : List String → Bool
is_empty [] = true
is_empty (v ∷ vs) = false

unfoldable pub plan_applies : Plan → Option String → Bool
plan_applies p active = is_empty p.vehicles || includes p.vehicles (get_or_else active "guest")

-- A weekday past the table is `undefined`, which no plan includes.
abbrev includes_today : List DayKey → Option DayKey → Bool
includes_today days none = false
includes_today days (some today) = has_day days today

-- The filter of `selectActivePlan`, at the local parts of `now`.
unfoldable pub qualifies : LocalParts → Option String → Plan → Bool
qualifies now active p =
    p.enabled
    && (plan_applies p active
        && (includes_today p.days (get_elem? day_keys now.weekday)
            && ltb (now.hour * 60 + now.minute) (ready_by_minutes p.ready_by)))

unfoldable pub earliest : Plan → List Plan → Plan
earliest best [] = best
earliest best (p ∷ ps) =
    earliest
      (if ltb (ready_by_minutes p.ready_by) (ready_by_minutes best.ready_by) then p else best) ps

abbrev first_of_candidates : List Plan → Option Plan
first_of_candidates [] = none
first_of_candidates (p ∷ ps) = some (earliest p ps)

unfoldable pub select_active_plan : List Plan → LocalParts → Option String → Option Plan
select_active_plan plans now active = first_of_candidates (filter_by (qualifies now active) plans)

-- The instant of today's `readyBy`, for the plan that governs.
unfoldable pub plan_target_time : (ℕ → ℕ) → Plan → ℕ → ℕ
plan_target_time wall p now = now + ms_until_local_time wall now p.ready_by.hour p.ready_by.minute
