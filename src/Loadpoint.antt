-- ===== src/Loadpoint.antt =====
-- src/core/loadpoint.ts: the live state of a loadpoint, and its persisted row. Currents are in mA, powers
-- in mW, session energies in mWh. The table `loadpoint_state` is a dictionary on its primary key; the column
-- `updated_at`, which nothing here reads, is left out.
pub mod Live
pub mod Store
mod Tests
use open_smart_charge.Base.{
  ℕ, Bool, true, false, Option, none, some, String, List, [], ◌∷◌, get_or_else, if◌then◌else◌, map,
  find_by, str_eq,
}
use open_smart_charge.Base.Dict.{Dict, get, put, update}
use open_smart_charge.Balancer.{Mode, smart}
use open_smart_charge.Charger.{Connector, ChargerStatus}

-- `LoadpointLiveFields`
pub record LiveFields : Type 0 where
  pub connected : Bool
  pub charging : Bool
  pub status : Option Connector
  pub current_a : ℕ
  pub power_w : ℕ
  pub session_energy : ℕ

unfoldable pub fold_charger_status : LiveFields → ChargerStatus → LiveFields
fold_charger_status prev status = record {
  connected = status.connected;
  charging = status.charging;
  status = some status.status;
  current_a = if status.charging then get_or_else status.current_a prev.current_a else 0;
  power_w = if status.charging then get_or_else status.power_w prev.power_w else 0;
  session_energy = get_or_else status.session_energy prev.session_energy;
}

-- A row of `loadpoint_state`; the name is its key.
pub record DbRow : Type 0 where
  pub mode : Mode
  pub target_soc : Option ℕ
  pub target_time : Option String
  pub target_kwh : Option ℕ
  pub min_soc : Option ℕ
  pub guest_override : Option String

pub record LoadpointInit : Type 0 where
  pub name : String
  pub max_current_a : Option ℕ
  pub default_mode : Option Mode
  pub target_soc : Option ℕ
  pub target_time : Option String
  pub target_kwh : Option ℕ
  pub min_soc : Option ℕ

-- The persisted and the configured fields of `LoadpointState`, with the live ones at rest.
pub record LoadpointState : Type 0 where
  pub name : String
  pub mode : Mode
  pub target_soc : Option ℕ
  pub target_time : Option String
  pub target_kwh : Option ℕ
  pub min_soc : Option ℕ
  pub vehicle_override : Option String
  pub live : LiveFields
  pub max_current_a : ℕ

abbrev pub at_rest : LiveFields
at_rest = record {
  connected = false;
  charging = false;
  status = none;
  current_a = 0;
  power_w = 0;
  session_energy = 0;
}

abbrev pub row_of : LoadpointInit → DbRow
row_of init = record {
  mode = get_or_else init.default_mode smart;
  target_soc = init.target_soc;
  target_time = init.target_time;
  target_kwh = init.target_kwh;
  min_soc = init.min_soc;
  guest_override = none;
}

abbrev insert_or_ignore : Option DbRow → Dict DbRow → String → DbRow → Dict DbRow
insert_or_ignore none db name row = put db name row
insert_or_ignore (some old) db name row = db

-- One `INSERT OR IGNORE`.
unfoldable pub seed : Dict DbRow → LoadpointInit → Dict DbRow
seed db init = insert_or_ignore (get db init.name) db init.name (row_of init)

abbrev pub state_of : LoadpointInit → DbRow → LoadpointState
state_of init row = record {
  name = init.name;
  mode = row.mode;
  target_soc = row.target_soc;
  target_time = row.target_time;
  target_kwh = row.target_kwh;
  min_soc = row.min_soc;
  vehicle_override = row.guest_override;
  live = at_rest;
  max_current_a = get_or_else init.max_current_a 16_000;
}

-- The loop of `loadLoadpointStates`, with the states collected so far. The row that is read back is
-- there, since it was inserted before.
unfoldable pub load_into :
    Dict DbRow → List LoadpointInit → Dict LoadpointState → Dict DbRow × Dict LoadpointState
load_into db [] states = (db, states)
load_into db (init ∷ inits) states =
    let db' = seed db init in
    let row = get_or_else (get db' init.name) (row_of init) in
    load_into db' inits (put states init.name (state_of init row))

unfoldable pub load_loadpoint_states :
    Dict DbRow → List LoadpointInit → Dict DbRow × Dict LoadpointState
load_loadpoint_states db inits = load_into db inits []

-- `INSERT … ON CONFLICT(name) DO UPDATE`: the override of an existing row stays.
unfoldable pub apply_one : Dict DbRow → LoadpointInit → Dict DbRow
apply_one db init = put db init.name (record (row_of init) {
  guest_override = elim (get db init.name) [ none ↦ none | some old ↦ old.guest_override ];
})

unfoldable pub apply_config_to_loadpoints : Dict DbRow → List LoadpointInit → Dict DbRow
apply_config_to_loadpoints db [] = db
apply_config_to_loadpoints db (init ∷ inits) = apply_config_to_loadpoints (apply_one db init) inits

-- `UPDATE loadpoint_state SET … WHERE name = ?`
unfoldable pub update_row : Dict DbRow → String → (DbRow → DbRow) → Dict DbRow
update_row db name f = update db name f

unfoldable pub set_loadpoint_mode : Dict DbRow → String → Mode → Dict DbRow
set_loadpoint_mode db name mode = update_row db name (λ r. record r { mode = mode })

-- A field to leave, to set, or (the energy only) to clear.
pub data Change (A : Type 0) : Type 0 where
  leave clear : Change A
  assign : A → Change A

abbrev pub changed : {A : Type 0} → Change A → Option A → Option A
changed leave old = old
changed clear old = none
changed (assign a) old = some a

pub record TargetPatch : Type 0 where
  pub target_soc : Option ℕ
  pub target_time : Option String
  pub target_kwh : Change ℕ
  pub min_soc : Option ℕ

-- `COALESCE(?, column)`
abbrev pub coalesce : {A : Type 0} → Option A → Option A → Option A
coalesce none old = old
coalesce (some a) old = some a

abbrev pub patched : TargetPatch → DbRow → DbRow
patched p r = record r {
  target_soc = coalesce p.target_soc r.target_soc;
  target_time = coalesce p.target_time r.target_time;
  target_kwh = changed p.target_kwh r.target_kwh;
  min_soc = coalesce p.min_soc r.min_soc;
}

unfoldable pub set_loadpoint_target : Dict DbRow → String → TargetPatch → Dict DbRow
set_loadpoint_target db name p = update_row db name (patched p)

unfoldable pub set_loadpoint_vehicle_override : Dict DbRow → String → Option String → Dict DbRow
set_loadpoint_vehicle_override db name o = update_row db name (λ r. record r { guest_override = o })

-- The parts of the configuration that `configToLoadpointInits` reads.
pub record ChargerConfig : Type 0 where
  pub name : String
  pub max_a : Option ℕ

pub record LoadpointConfig : Type 0 where
  pub name : String
  pub charger : String
  pub default_mode : Option Mode
  pub target_soc : Option ℕ
  pub target_time : Option String
  pub target_kwh : Option ℕ
  pub min_soc : Option ℕ

abbrev max_of : Option ChargerConfig → Option ℕ
max_of none = none
max_of (some c) = c.max_a

unfoldable pub config_to_loadpoint_inits :
    List LoadpointConfig → List ChargerConfig → List LoadpointInit
config_to_loadpoint_inits lps chargers =
    map
      (λ lp. record {
        name = lp.name;
        max_current_a =
            some (get_or_else (max_of (find_by (λ c. str_eq c.name lp.charger) chargers)) 16_000);
        default_mode = lp.default_mode;
        target_soc = lp.target_soc;
        target_time = lp.target_time;
        target_kwh = lp.target_kwh;
        min_soc = lp.min_soc;
      })
      lps
