-- ===== src/Config.antt =====
-- src/core/config-overrides.ts: overrides of the structural configuration, layered over the parsed file.
-- A configuration is seen as the object that it is: a few single sections, and the arrays of named
-- entities. The table is kept in the order of its key, which SQLite decides (`before`); the schema that
-- validates a draft is a parameter (`parse`), which fails where it throws.
pub mod Keys
pub mod Overlay
pub mod Reassert
mod Tests
use open_smart_charge.Base.{
  ℕ, ◌==◌, Bool, true, false, ◌&&◌, ◌||◌, not, Option, none, some, String, List, [], ◌∷◌, ◌++◌,
  if◌then◌else◌, get_or_else, str_eq, any_by, find_by, filter_by, is_some,
}
use open_smart_charge.Base.Int.{ℤ}
use open_smart_charge.Base.Dict.{Dict, get, put}

-- A value of a patch. What is compared is only the text of a name.
pub data Value : Type 0 where
  text : String → Value
  number : ℤ → Value
  flag : Bool → Value
  null : Value
  nested : List (String × String) → Value

-- An object, in the order of its keys.
abbrev pub Fields : Type 0
Fields = Dict Value

-- `{ ...a, ...b }`
unfoldable pub spread : Fields → Fields → Fields
spread a [] = a
spread a ((k, v) ∷ b) = spread (put a k v) b

pub data SingletonKind : Type 0 where
  site smart_charging mqtt_bridge : SingletonKind

pub data EntityKind : Type 0 where
  tariff balancer vehicle charger meter_reader loadpoint : EntityKind

-- `isSingletonKind` tells the two apart.
pub data OverrideKind : Type 0 where
  singleton : SingletonKind → OverrideKind
  entity : EntityKind → OverrideKind

abbrev pub index_of_singleton : SingletonKind → ℕ
index_of_singleton site = 0
index_of_singleton smart_charging = 1
index_of_singleton mqtt_bridge = 2

abbrev pub index_of_entity : EntityKind → ℕ
index_of_entity tariff = 3
index_of_entity balancer = 4
index_of_entity vehicle = 5
index_of_entity charger = 6
index_of_entity meter_reader = 7
index_of_entity loadpoint = 8

abbrev pub index_of : OverrideKind → ℕ
index_of (singleton k) = index_of_singleton k
index_of (entity k) = index_of_entity k

-- Kinds are told apart by their text, of which each has its own.
unfoldable pub same_kind : OverrideKind → OverrideKind → Bool
same_kind a b = index_of a == index_of b

pub record OverrideRow : Type 0 where
  pub kind : OverrideKind
  pub name : String
  pub patch : Fields

unfoldable pub is_key : OverrideKind → String → OverrideRow → Bool
is_key kind name r = same_kind r.kind kind && str_eq r.name name

abbrev patch_of : Option OverrideRow → Option Fields
patch_of none = none
patch_of (some r) = some r.patch

unfoldable pub get_override : List OverrideRow → OverrideKind → String → Option Fields
get_override rows kind name = patch_of (find_by (is_key kind name) rows)

-- The place of a new row, in the order of the key.
unfoldable pub insert_row :
    (OverrideRow → OverrideRow → Bool) → OverrideRow → List OverrideRow → List OverrideRow
insert_row before new [] = new ∷ []
insert_row before new (r ∷ rows) =
    if before new r then new ∷ r ∷ rows else r ∷ insert_row before new rows

unfoldable pub update_rows : OverrideKind → String → Fields → List OverrideRow → List OverrideRow
update_rows kind name merged [] = []
update_rows kind name merged (r ∷ rows) =
    (if is_key kind name r then record r { patch = merged } else r)
    ∷ update_rows kind name merged rows

-- `INSERT … ON CONFLICT(kind, name) DO UPDATE`, of the patch merged into the stored one.
unfoldable pub set_override :
    (OverrideRow → OverrideRow → Bool)
    → List OverrideRow
    → OverrideKind
    → String
    → Fields
    → List OverrideRow
set_override before rows kind name patch =
    let merged = spread (get_or_else (get_override rows kind name) []) patch in
    if is_some (get_override rows kind name)
    then update_rows kind name merged rows
    else insert_row before (record { kind = kind; name = name; patch = merged }) rows

unfoldable pub delete_override : List OverrideRow → OverrideKind → String → List OverrideRow × Bool
delete_override rows kind name =
    (filter_by (λ r. not (is_key kind name r)) rows, any_by (is_key kind name) rows)

-- A configuration, and a draft of one.
pub record Config : Type 0 where
  pub sections : SingletonKind → Option Fields
  pub entities : EntityKind → List Fields

abbrev pub has_text : Option Value → String → Bool
has_text (some (text t)) name = str_eq t name
has_text _ name = false

-- `e.name === name`
abbrev pub is_named : String → Fields → Bool
is_named name e = has_text (get e "name") name

-- `inBase`
unfoldable pub in_base : Config → OverrideKind → String → Bool
in_base base (singleton k) name = true
in_base base (entity k) name = any_by (is_named name) (base.entities k)

pub record Applied : Type 0 where
  pub rows : List OverrideRow
  pub cleared : List OverrideRow
  pub preserved : List OverrideRow

-- The loop of `applyConfigOverrides` over the listed rows, with what it collected so far.
unfoldable pub apply_rows : Config → Bool → List OverrideRow → Applied → Applied
apply_rows base prune [] a = a
apply_rows base prune (r ∷ rs) a = apply_rows base prune rs (
    if prune || in_base base r.kind r.name
    then record a {
      rows = (delete_override a.rows r.kind r.name).0;
      cleared = a.cleared ++ (r ∷ []);
    }
    else record a { preserved = a.preserved ++ (r ∷ []) })

unfoldable pub apply_config_overrides : Config → List OverrideRow → Bool → Applied
apply_config_overrides base rows prune =
    apply_rows base prune rows (record { rows = rows; cleared = []; preserved = [] })

-- An entity patch goes onto the first entity of that name, or appends one.
unfoldable pub merge_entity : List Fields → String → Fields → List Fields
merge_entity [] name patch = spread (("name", text name) ∷ []) patch ∷ []
merge_entity (e ∷ es) name patch =
    if is_named name e then spread e patch ∷ es else e ∷ merge_entity es name patch

unfoldable pub merge_override_into : Config → OverrideKind → String → Fields → Config
merge_override_into draft (singleton k) name patch = record draft {
  sections = λ j.
      if same_kind (singleton j) (singleton k)
      then some (spread (get_or_else (draft.sections k) []) patch)
      else draft.sections j;
}
merge_override_into draft (entity k) name patch = record draft {
  entities = λ j.
      if same_kind (entity j) (entity k)
      then merge_entity (draft.entities k) name patch
      else draft.entities j;
}

unfoldable pub merge_all : Config → List OverrideRow → Config
merge_all draft [] = draft
merge_all draft (r ∷ rows) = merge_all (merge_override_into draft r.kind r.name r.patch) rows

unfoldable pub get_effective_config :
    (Config → Option Config) → Config → List OverrideRow → Option Config
get_effective_config parse base rows = parse (merge_all base rows)

unfoldable pub validate_config_with :
    (Config → Option Config) → Config → List OverrideRow → Option Config
validate_config_with parse from edits = parse (merge_all from edits)
