-- ===== src/Plans/Store.antt =====
-- The table of plans against its specification: a partial function from ids to plans.
use open_smart_charge.Base.{
  ℕ, ◌+◌, ◌<◌, ◌≡◌, refl, ap, ◌∙◌, Bool, true, false, not, Option, none, some, String, List, [],
  ◌∷◌, ◌++◌, arith, ◌==◌, ==_iff, is_some, if◌then◌else◌, filter_by, any_by, All, All-append,
  All-map, All-filter_by,
}
use open_smart_charge.Plans.Rows.{plan_from, patch_plan, row_to_plan-new_row, row_to_plan-patch_row}
use open_smart_charge.Plans.{
  Plan, PlanInput, PlanPatch, PlanRow, Table, plan_of, find_row, get_plan, new_row, create_plan,
  patch_row, patch_rows, update_plan, delete_plan,
}

-- The ids of the table lie below its counter.
abbrev pub IsFresh : Table → Type 0
IsFresh t = All (λ r. r.id < t.next_id) t.rows

find-append :
    (k : ℕ) (rows : List PlanRow) (r : PlanRow)
    → All (λ x. x.id < r.id) rows
    → find_row k (rows ++ (r ∷ [])) ≡ (if r.id == k then some r else find_row k rows)
find-append k [] r h = refl
find-append k (x ∷ xs) r h =
    ground (arith, find-append k xs r h.1, h.0, ==_iff r.id k, ==_iff x.id k)

abbrev patched_row : PlanPatch → Option PlanRow → Option PlanRow
patched_row p none = none
patched_row p (some r) = some (patch_row p r)

id-patch_row : (p : PlanPatch) (r : PlanRow) → (patch_row p r).id ≡ r.id
unfolding patch_row
id-patch_row p r = refl

find-patch_rows :
    (id k : ℕ) (p : PlanPatch) (rows : List PlanRow)
    → find_row k (patch_rows id p rows)
      ≡ (if id == k then patched_row p (find_row k rows) else find_row k rows)
unfolding patch_rows
find-patch_rows id k p [] = ground arith
find-patch_rows id k p (x ∷ xs) =
    ground (
      arith,
      find-patch_rows id k p xs,
      id-patch_row p x,
      ==_iff id k,
      ==_iff x.id id,
      ==_iff x.id k,
    )

find-filter :
    (id k : ℕ) (rows : List PlanRow)
    → find_row k (filter_by (λ r. not (r.id == id)) rows)
      ≡ (if id == k then none else find_row k rows)
find-filter id k [] = ground arith
find-filter id k (x ∷ xs) =
    ground (arith, find-filter id k xs, ==_iff id k, ==_iff x.id id, ==_iff x.id k)

abbrev pub map_plan : (Plan → Plan) → Option Plan → Option Plan
map_plan f none = none
map_plan f (some p) = some (f p)

plan_of-patched_row :
    (p : PlanPatch) (o : Option PlanRow)
    → plan_of (patched_row p o) ≡ map_plan (patch_plan p) (plan_of o)
plan_of-patched_row p none = refl
plan_of-patched_row p (some r) = ap some (row_to_plan-patch_row p r)

plan_of-if :
    (b : Bool) (x y : Option PlanRow)
    → plan_of (if b then x else y) ≡ (if b then plan_of x else plan_of y)
plan_of-if true x y = refl
plan_of-if false x y = refl

IsFresh-patch_rows :
    (n id : ℕ) (p : PlanPatch) (rows : List PlanRow)
    → All (λ r. r.id < n) rows
    → All (λ r. r.id < n) (patch_rows id p rows)
unfolding patch_rows
IsFresh-patch_rows n id p [] h = tt
IsFresh-patch_rows n id p (r ∷ rs) h =
    (ground (arith, id-patch_row p r, h.0), IsFresh-patch_rows n id p rs h.1)

any-find :
    (id : ℕ) (rows : List PlanRow)
    → any_by (λ r. r.id == id) rows ≡ is_some (plan_of (find_row id rows))
any-find id [] = refl
any-find id (r ∷ rs) = ground (arith, any-find id rs)

find-append_new :
    (id : ℕ) (n : String) (i : PlanInput) (k : ℕ) (rows : List PlanRow)
    → All (λ x. x.id < id) rows
    → find_row k (rows ++ (new_row id n i ∷ []))
      ≡ (if id == k then some (new_row id n i) else find_row k rows)
unfolding new_row
find-append_new id n i k rows h = find-append k rows (new_row id n i) h

created_plan :
    (t : Table) (n : String) (i : PlanInput)
    → (create_plan t n i).1 ≡ get_plan (create_plan t n i).0 t.next_id
unfolding create_plan
created_plan t n i = refl

IsFresh-create_plan :
    (t : Table) (n : String) (i : PlanInput) → IsFresh t → IsFresh (create_plan t n i).0
unfolding create_plan new_row
IsFresh-create_plan t n i h =
    All-append (λ r. r.id < t.next_id + 1) t.rows (new_row t.next_id n i ∷ [])
      (All-map (λ r. r.id < t.next_id) (λ r. r.id < t.next_id + 1) t.rows (λ r lt. omega arith) h)
      (omega arith, tt)

IsFresh-update_plan :
    (t : Table) (id : ℕ) (p : PlanPatch) → IsFresh t → IsFresh (update_plan t id p).0
unfolding update_plan
IsFresh-update_plan t id p h = IsFresh-patch_rows t.next_id id p t.rows h

updated_plan :
    (t : Table) (id : ℕ) (p : PlanPatch)
    → (update_plan t id p).1 ≡ get_plan (update_plan t id p).0 id
unfolding update_plan
updated_plan t id p = refl

IsFresh-delete_plan : (t : Table) (id : ℕ) → IsFresh t → IsFresh (delete_plan t id).0
unfolding delete_plan
IsFresh-delete_plan t id h =
    All-map _ (λ r. r.id < t.next_id) (filter_by (λ r. not (r.id == id)) t.rows) (λ r both. both.0)
      (All-filter_by (λ r. r.id < t.next_id) (λ r. not (r.id == id)) t.rows h)

deleted_plan : (t : Table) (id : ℕ) → (delete_plan t id).1 ≡ is_some (get_plan t id)
unfolding delete_plan get_plan
deleted_plan t id = any-find id t.rows

get-create_plan :
    (t : Table) (n : String) (i : PlanInput) (k : ℕ)
    → IsFresh t
    → get_plan (create_plan t n i).0 k
      ≡ (if t.next_id == k then some (plan_from t.next_id n i) else get_plan t k)
unfolding get_plan create_plan
get-create_plan t n i k h =
    ap plan_of (find-append_new t.next_id n i k t.rows h)
    ∙ plan_of-if (t.next_id == k) (some (new_row t.next_id n i)) (find_row k t.rows)
    ∙ ap (λ x. if t.next_id == k then some x else plan_of (find_row k t.rows))
        (row_to_plan-new_row t.next_id n i)

get-update_plan :
    (t : Table) (id k : ℕ) (p : PlanPatch)
    → get_plan (update_plan t id p).0 k
      ≡ (if id == k then map_plan (patch_plan p) (get_plan t k) else get_plan t k)
unfolding get_plan update_plan
get-update_plan t id k p =
    ap plan_of (find-patch_rows id k p t.rows)
    ∙ plan_of-if (id == k) (patched_row p (find_row k t.rows)) (find_row k t.rows)
    ∙ ap (λ x. if id == k then x else plan_of (find_row k t.rows))
        (plan_of-patched_row p (find_row k t.rows))

get-delete_plan :
    (t : Table) (id k : ℕ)
    → get_plan (delete_plan t id).0 k ≡ (if id == k then none else get_plan t k)
unfolding get_plan delete_plan
get-delete_plan t id k =
    ap plan_of (find-filter id k t.rows) ∙ plan_of-if (id == k) none (find_row k t.rows)

same_id : (id : ℕ) → (id == id) ≡ true
same_id id = (==_iff id id).1 refl

-- The three operations on a table and the partial function.
abbrev pub Implements : Table → Type 0
Implements t =
    ((n : String) (i : PlanInput)
      → let (t', made) = create_plan t n i in
        IsFresh t'
        × (made ≡ some (plan_from t.next_id n i))
        × ((k : ℕ)
            → get_plan t' k
              ≡ (if t.next_id == k then some (plan_from t.next_id n i) else get_plan t k)))
    × ((id : ℕ) (p : PlanPatch)
        → let (t', now) = update_plan t id p in
          IsFresh t'
          × (now ≡ map_plan (patch_plan p) (get_plan t id))
          × ((k : ℕ)
              → get_plan t' k
                ≡ (if id == k then map_plan (patch_plan p) (get_plan t k) else get_plan t k)))
    × ((id : ℕ)
        → let (t', deleted) = delete_plan t id in
          IsFresh t'
          × (deleted ≡ is_some (get_plan t id))
          × ((k : ℕ) → get_plan t' k ≡ (if id == k then none else get_plan t k)))

-- While the ids of the table lie below its counter, which every operation keeps, the table is the
-- partial function from ids to plans that the operations describe: creating returns the plan of the
-- input and adds it at the new id, updating returns the patched plan and replaces that plan alone, and
-- deleting removes that plan alone and tells whether it was there.
pub plans_implement : (t : Table) → IsFresh t → Implements t
plans_implement t h = (
  λ n i. (
    IsFresh-create_plan t n i h,
    created_plan t n i ∙ get-create_plan t n i t.next_id h ∙ rw (same_id t.next_id) refl,
    λ k. get-create_plan t n i k h,
  ),
  λ id p. (
    IsFresh-update_plan t id p h,
    updated_plan t id p ∙ get-update_plan t id id p ∙ rw (same_id id) refl,
    λ k. get-update_plan t id k p,
  ),
  λ id. (IsFresh-delete_plan t id h, deleted_plan t id, λ k. get-delete_plan t id k),
)
