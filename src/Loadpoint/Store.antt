-- ===== src/Loadpoint/Store.antt =====
-- The persisted rows: which operation wins over what.
use mathlib.Core.Option.{some-injective}
use open_smart_charge.Base.{
  ◌≡◌, refl, sym, ap, ◌∙◌, subst, false, Option, none, some, String, List, [], ◌∷◌, ◌++◌, arith,
  get_or_else, if◌then◌else◌, str_eq, eq_iff, Bool-cases, Option-cases, inl, inr, All,
}
use open_smart_charge.Base.Dict.{Dict, get, put, get-put, get-update, mapped}
use open_smart_charge.Loadpoint.{
  DbRow, LoadpointInit, LoadpointState, row_of, seed, state_of, load_into, load_loadpoint_states,
  apply_one, apply_config_to_loadpoints, update_row, TargetPatch, patched, set_loadpoint_target,
  coalesce, leave, clear, assign,
}

seed-keeps :
    (db : Dict DbRow) (init : LoadpointInit) (k : String) (row : DbRow)
    → get db k ≡ some row
    → get (seed db init) k ≡ some row
unfolding seed
seed-keeps db init k row e =
    ground (arith, eq_iff init.name k, get-put db init.name k (row_of init))

seed-has :
    (db : Dict DbRow) (init : LoadpointInit)
    → (row : DbRow) × (get (seed db init) init.name ≡ some row)
unfolding seed
seed-has db init = elim (Option-cases (get db init.name)) [
  | inl e ↦ (
    row_of init,
    ground (arith, e, eq_iff init.name init.name, get-put db init.name init.name (row_of init)),
  )
  | inr (row, e) ↦ (row, seed-keeps db init init.name row e)
]

-- A state shows what its row holds.
pub record Shows (row : DbRow) (st : LoadpointState) : Type 0 where
  pub mode : st.mode ≡ row.mode
  pub target_soc : st.target_soc ≡ row.target_soc
  pub target_time : st.target_time ≡ row.target_time
  pub target_kwh : st.target_kwh ≡ row.target_kwh
  pub min_soc : st.min_soc ≡ row.min_soc
  pub vehicle_override : st.vehicle_override ≡ row.guest_override

abbrev Reflects : Dict DbRow → Dict LoadpointState → Type 0
Reflects db states =
    (k : String) (st : LoadpointState)
    → get states k ≡ some st
    → (row : DbRow) × (get db k ≡ some row) × Shows row st

step-Reflects :
    (db : Dict DbRow) (init : LoadpointInit) (states : Dict LoadpointState) (row : DbRow)
    → get (seed db init) init.name ≡ some row
    → Reflects db states
    → Reflects (seed db init) (put states init.name (state_of init row))
step-Reflects db init states row e r k st g = elim (Bool-cases (str_eq init.name k)) [
  | inl same ↦
      let g' : some (state_of init row) ≡ some st =
        rw same at (sym (get-put states init.name k (state_of init row)) ∙ g) in
      let name : init.name ≡ k = (eq_iff init.name k).0 same in
      (
        row,
        subst (λ n. get (seed db init) n ≡ some row) name e,
        subst (Shows row) (some-injective _ _ g') (record {
          mode = refl;
          target_soc = refl;
          target_time = refl;
          target_kwh = refl;
          min_soc = refl;
          vehicle_override = refl;
        }),
      )
  | inr other ↦
      let g' : get states k ≡ some st =
        rw other at (sym (get-put states init.name k (state_of init row)) ∙ g) in
      let (old, h, shows) = r k st g' in (old, seed-keeps db init k old h, shows)
]

load_into-keeps :
    (db : Dict DbRow) (inits : List LoadpointInit) (states : Dict LoadpointState) (k : String)
    (row : DbRow)
    → get db k ≡ some row
    → get (load_into db inits states).0 k ≡ some row
unfolding load_into
load_into-keeps db [] states k row e = e
load_into-keeps db (init ∷ inits) states k row e =
    load_into-keeps (seed db init) inits _ k row (seed-keeps db init k row e)

load_into-Reflects :
    (db : Dict DbRow) (inits : List LoadpointInit) (states : Dict LoadpointState)
    → Reflects db states
    → Reflects (load_into db inits states).0 (load_into db inits states).1
unfolding load_into
load_into-Reflects db [] states r = r
load_into-Reflects db (init ∷ inits) states r =
    let (row, e) = seed-has db init in
    let found : get_or_else (get (seed db init) init.name) (row_of init) ≡ row =
      ap (λ o. get_or_else o (row_of init)) e in
    load_into-Reflects (seed db init) inits
      (put states init.name
        (state_of init (get_or_else (get (seed db init) init.name) (row_of init))))
      (subst (λ x. Reflects (seed db init) (put states init.name (state_of init x))) (sym found)
        (step-Reflects db init states row e r))

-- At boot a persisted row wins over the configuration: no row that was there is changed, and every
-- loadpoint's state shows the mode, the targets and the override of its row.
pub load_loadpoint_states-Shows :
    (db : Dict DbRow) (inits : List LoadpointInit)
    → let (db', states) = load_loadpoint_states db inits in
      ((k : String) (row : DbRow) → get db k ≡ some row → get db' k ≡ some row)
      × ((k : String) (st : LoadpointState)
          → get states k ≡ some st
          → (row : DbRow) × (get db' k ≡ some row) × Shows row st)
unfolding load_loadpoint_states
load_loadpoint_states-Shows db inits = (
  load_into-keeps db inits [],
  load_into-Reflects db inits [] (λ k st g. absurd (unfold get in cc)),
)

abbrev pub override_in : Dict DbRow → String → Option String
override_in db k = elim (get db k) [ none ↦ none | some row ↦ row.guest_override ]

abbrev row_with : LoadpointInit → Option String → DbRow
row_with init o = record (row_of init) { guest_override = o }

apply_one-override :
    (db : Dict DbRow) (init : LoadpointInit) (k : String)
    → override_in (apply_one db init) k ≡ override_in db k
unfolding apply_one
apply_one-override db init k =
    ground
      (arith, eq_iff init.name k, get-put db init.name k (row_with init (override_in db init.name)))

apply-override :
    (db : Dict DbRow) (inits : List LoadpointInit) (k : String)
    → override_in (apply_config_to_loadpoints db inits) k ≡ override_in db k
unfolding apply_config_to_loadpoints
apply-override db [] k = refl
apply-override db (init ∷ inits) k =
    apply-override (apply_one db init) inits k ∙ apply_one-override db init k

apply-others :
    (db : Dict DbRow) (inits : List LoadpointInit) (k : String)
    → All (λ j. str_eq j.name k ≡ false) inits
    → get (apply_config_to_loadpoints db inits) k ≡ get db k
unfolding apply_config_to_loadpoints apply_one
apply-others db [] k h = refl
apply-others db (init ∷ inits) k h =
    apply-others (apply_one db init) inits k h.1 ∙ get-put db init.name k _ ∙ rw h.0 refl

apply-append :
    (db : Dict DbRow) (xs ys : List LoadpointInit)
    → apply_config_to_loadpoints db (xs ++ ys)
      ≡ apply_config_to_loadpoints (apply_config_to_loadpoints db xs) ys
unfolding apply_config_to_loadpoints
apply-append db [] ys = refl
apply-append db (x ∷ xs) ys = apply-append (apply_one db x) xs ys

-- The configuration, applied on purpose, wins over the rows: the last entry of a name decides its mode
-- and targets, an omitted target is cleared, and the vehicle override of the row stays.
pub get-apply_config_to_loadpoints :
    (db : Dict DbRow) (before after : List LoadpointInit) (init : LoadpointInit)
    → All (λ j. str_eq j.name init.name ≡ false) after
    → get (apply_config_to_loadpoints db (before ++ (init ∷ after))) init.name
      ≡ some (record (row_of init) { guest_override = override_in db init.name })
unfolding apply_config_to_loadpoints apply_one
get-apply_config_to_loadpoints db before after init h =
    let db' = apply_config_to_loadpoints db before in
    ap (λ m. get m init.name) (apply-append db before (init ∷ after))
    ∙ apply-others (apply_one db' init) after init.name h
    ∙ get-put db' init.name init.name (row_with init (override_in db' init.name))
    ∙ rw ((eq_iff init.name init.name).1 refl)
        (ap (λ o. some (row_with init o)) (apply-override db before init.name))

get-update_row :
    (db : Dict DbRow) (name k : String) (f : DbRow → DbRow)
    → get (update_row db name f) k ≡ (if str_eq name k then mapped (get db k) f else get db k)
unfolding update_row
get-update_row db name k f = get-update db name k f

-- Two partial updates of the targets.
abbrev pub then_patch : TargetPatch → TargetPatch → TargetPatch
then_patch p q = record {
  target_soc = coalesce q.target_soc p.target_soc;
  target_time = coalesce q.target_time p.target_time;
  target_kwh = elim q.target_kwh [ leave ↦ p.target_kwh | clear ↦ clear | assign a ↦ assign a ];
  min_soc = coalesce q.min_soc p.min_soc;
}

-- Partial updates compose: two of one loadpoint leave the table as one does that takes each field from
-- the later update that sets or clears it. Rows of other names, and a name without a row, stay as they
-- are.
pub set_loadpoint_target_compose :
    (db : Dict DbRow) (name k : String) (p q : TargetPatch)
    → (get (set_loadpoint_target (set_loadpoint_target db name p) name q) k
        ≡ get (set_loadpoint_target db name (then_patch p q)) k)
      × (str_eq name k ≡ false → get (set_loadpoint_target db name p) k ≡ get db k)
      × (get db k ≡ none → get (set_loadpoint_target db name p) k ≡ none)
unfolding set_loadpoint_target
set_loadpoint_target_compose db name k p q = (
  ground (
    arith,
    get-update_row (update_row db name (patched p)) name k (patched q),
    get-update_row db name k (patched p),
    get-update_row db name k (patched (then_patch p q)),
  ),
  λ e. get-update_row db name k (patched p) ∙ rw e refl,
  λ e. get-update_row db name k (patched p) ∙ rw e (ground arith),
)
