-- ===== src/Reconcile.antt =====
-- src/core/reconcile.ts: after an override was written, the affected module is built anew from the
-- effective configuration and swapped in. What the modules do is a parameter: whether one can be built
-- from its entity, started and stopped. A handle stands for a module, by a number of its own. A failure
-- leaves through the call, which then is not completed. Numbers of the configuration are thousandths.
pub mod Entities
pub mod Swap
pub mod Wiring
mod Tests
use open_smart_charge.Base.{
  ℕ, Bool, true, false, ◌&&◌, Option, none, some, String, List, [], ◌∷◌, ◌++◌, if◌then◌else◌,
  get_or_else, is_some, str_eq, find_by, filter_by, map,
}
use open_smart_charge.Base.Dict.{Dict, get, put, remove, update}
use open_smart_charge.Base.Int.{pos}
use open_smart_charge.Config.{
  Value, text, number, Fields, spread, Config, OverrideKind, OverrideRow, SingletonKind, EntityKind,
  singleton, entity, site, smart_charging, loadpoint, charger, vehicle, same_kind, is_named,
  has_text, get_effective_config,
}
use open_smart_charge.ControlLoop
use open_smart_charge.ControlLoop.{Circuit, build_circuits}
use open_smart_charge.Health.{Health, HealthMap, update_health, remove_health}
use open_smart_charge.Loadpoint.{
  LoadpointState, LoadpointInit, LoadpointConfig, ChargerConfig, DbRow, load_loadpoint_states,
  config_to_loadpoint_inits,
}

pub record Handle : Type 0 where
  pub id : ℕ
  pub health : Health

-- The modules, the schema, and the typed view that it gives of a configuration.
pub record Modules : Type 0 where
  pub create : EntityKind → Fields → Option Handle
  pub starts : Handle → Bool
  pub stops : Handle → Bool
  pub parse : Config → Option Config
  pub loadpoints : Config → List LoadpointConfig
  pub chargers : Config → List ChargerConfig

-- `ReconcileDeps`: what the reconciler changes in place, with the handles that it asked to stop and the
-- `config.changed` events that it sent. `wired` tells whose frames a loadpoint listens to.
pub record Live : Type 0 where
  pub config : Config
  pub modules : EntityKind → Dict Handle
  pub health : HealthMap
  pub states : Dict LoadpointState
  pub db : Dict DbRow
  pub limits : Dict Handle
  pub wired : Dict Handle
  pub circuits : List Circuit
  pub stopped : List Handle
  pub events : List (OverrideKind × String)

pub record Outcome : Type 0 where
  pub live : Live
  pub completed : Bool

-- What the base, the overrides and the schema say of an entity, if the schema accepts them.
abbrev pub entity_of : Option Config → EntityKind → String → Option (Option Fields)
entity_of none k name = none
entity_of (some c) k name = some (find_by (is_named name) (c.entities k))

unfoldable pub desired :
    Modules → Config → List OverrideRow → EntityKind → String → Option (Option Fields)
desired m base rows k name = entity_of (get_effective_config m.parse base rows) k name

-- The first entity of the name is replaced, or the new one is appended.
unfoldable pub sync_list : List Fields → String → Fields → List Fields
sync_list [] name cfg = cfg ∷ []
sync_list (e ∷ es) name cfg = if is_named name e then cfg ∷ es else e ∷ sync_list es name cfg

abbrev pub set_entities : Config → EntityKind → List Fields → Config
set_entities c k es = record c {
  entities = λ j. if same_kind (entity j) (entity k) then es else c.entities j;
}

unfoldable pub sync_entity : Config → EntityKind → String → Fields → Config
sync_entity c k name cfg = set_entities c k (sync_list (c.entities k) name cfg)

-- `findIndex` and `splice`.
unfoldable pub splice_list : List Fields → String → List Fields
splice_list [] name = []
splice_list (e ∷ es) name = if is_named name e then es else e ∷ splice_list es name

abbrev pub set_module :
    (EntityKind → Dict Handle) → EntityKind → Dict Handle → EntityKind → Dict Handle
set_module ms k d j = if same_kind (entity j) (entity k) then d else ms j

abbrev pub number_of : Option Value → Option ℕ
number_of (some (number (pos n))) = some n
number_of _ = none

abbrev pub text_of : Option Value → Option String
text_of (some (text t)) = some t
text_of _ = none

abbrev pub name_of : Fields → String
name_of e = get_or_else (text_of (get e "name")) ""

-- The new module takes the place of the old one in the configuration, the map and the health.
unfoldable pub swap_in : EntityKind → String → Fields → Handle → ℕ → Live → Live
swap_in k name cfg h now live = record live {
  config = sync_entity live.config k name cfg;
  modules = set_module live.modules k (put (live.modules k) name h);
  health = update_health live.health name h.health now;
}

abbrev pub note : OverrideKind → String → Live → Outcome
note k name live = record {
  live = record live { events = live.events ++ ((k, name) ∷ []) };
  completed = true;
}

-- The old module is stopped last, and the event tells of it unless that fails.
unfoldable pub stop_and_note : Modules → Option Handle → OverrideKind → String → Live → Outcome
stop_and_note m none k name live = note k name live
stop_and_note m (some old) k name live =
    let asked = record live { stopped = live.stopped ++ (old ∷ []) } in
    if m.stops old then note k name asked else record { live = asked; completed = false }

-- The loop of `reloadCharger` over its loadpoints: the map of limits, the listener and the ceiling.
unfoldable pub repoint_one : Handle → Option ℕ → Fields → Live → Live
repoint_one h max_a lp live =
    let name = name_of lp in
    let ceiling : LoadpointState → LoadpointState =
      λ s. record s { max_current_a = get_or_else max_a s.max_current_a } in
    record live {
      limits = put live.limits name h;
      states = update live.states name ceiling;
      wired = if is_some (get live.states name) then put live.wired name h else live.wired;
    }

unfoldable pub repoint : String → Handle → Option ℕ → List Fields → Live → Live
repoint name h max_a [] live = live
repoint name h max_a (lp ∷ lps) live =
    repoint name h max_a lps
      (if has_text (get lp "charger") name then repoint_one h max_a lp live else live)

-- What a reload does once the new module runs; a charger also takes over its loadpoints.
unfoldable pub adopt : EntityKind → String → Fields → Handle → ℕ → Live → Live
adopt charger name cfg h now live =
    let swapped = swap_in charger name cfg h now live in
    repoint name h (number_of (get cfg "maxA")) (swapped.config.entities loadpoint) swapped
adopt k name cfg h now live = swap_in k name cfg h now live

-- Vehicles own no timer and are not started.
abbrev pub needs_start : EntityKind → Bool
needs_start vehicle = false
needs_start _ = true

abbrev pub build : Modules → EntityKind → Option Handle → Option Handle
build m k none = none
build m k (some h) = if needs_start k then (if m.starts h then some h else none) else some h

abbrev pub fail : Live → Outcome
fail live = record { live = live; completed = false }

abbrev pub skip : Live → Outcome
skip live = record { live = live; completed = true }

abbrev built_reload : Modules → EntityKind → String → Fields → ℕ → Live → Option Handle → Outcome
built_reload m k name cfg now live none = fail live
built_reload m k name cfg now live (some h) =
    stop_and_note m (get (live.modules k) name) (entity k) name (adopt k name cfg h now live)

abbrev reload_from : Modules → EntityKind → String → ℕ → Live → Option (Option Fields) → Outcome
reload_from m k name now live none = fail live
reload_from m k name now live (some none) = skip live
reload_from m k name now live (some (some cfg)) =
    built_reload m k name cfg now live (build m k (m.create k cfg))

-- `reloadTariff`, `reloadBalancer`, `reloadMeterReader`, `reloadCharger` and `reloadVehicle`.
unfoldable pub reload_module :
    Modules → Config → List OverrideRow → EntityKind → String → ℕ → Live → Outcome
reload_module m base rows k name now live =
    reload_from m k name now live (desired m base rows k name)

abbrev built_add : Modules → EntityKind → String → Fields → ℕ → Live → Option Handle → Outcome
built_add m k name cfg now live none = fail live
built_add m k name cfg now live (some h) = note (entity k) name (swap_in k name cfg h now live)

abbrev add_from : Modules → EntityKind → String → ℕ → Live → Option (Option Fields) → Outcome
add_from m k name now live none = fail live
add_from m k name now live (some none) = skip live
add_from m k name now live (some (some cfg)) =
    built_add m k name cfg now live (build m k (m.create k cfg))

-- `addCharger` and `addVehicle`.
unfoldable pub add_module :
    Modules → Config → List OverrideRow → EntityKind → String → ℕ → Live → Outcome
add_module m base rows k name now live = add_from m k name now live (desired m base rows k name)
