-- ===== src/Reconcile/Entities.antt =====
-- The other operations of src/core/reconcile.ts: what is removed, the single sections, and loadpoints,
-- which no module owns.
use open_smart_charge.Base.{
  Option, none, some, String, List, [], if◌then◌else◌, get_or_else, is_some, any_by, map,
}
use open_smart_charge.Base.Dict.{Dict, get, put, remove}
use open_smart_charge.Config.{
  null, Fields, spread, Config, OverrideRow, SingletonKind, EntityKind, singleton, entity, site,
  smart_charging, loadpoint, charger, vehicle, is_named, has_text, get_effective_config, same_kind,
}
use open_smart_charge.ControlLoop.{build_circuits}
use open_smart_charge.Health.{remove_health}
use open_smart_charge.Loadpoint.{LoadpointState, load_loadpoint_states, config_to_loadpoint_inits}
use open_smart_charge.Reconcile.{
  Handle, Modules, Live, Outcome, desired, sync_entity, splice_list, set_entities, set_module,
  text_of, name_of, note, stop_and_note, fail, skip,
}

-- The module, its health and its entity go.
unfoldable pub take_out : EntityKind → String → Live → Live
take_out k name live = record live {
  modules = set_module live.modules k (remove (live.modules k) name);
  health = remove_health live.health name;
  config = set_entities live.config k (splice_list (live.config.entities k) name);
}

-- `removeMeterReader` and `removeCharger`.
unfoldable pub remove_module : Modules → EntityKind → String → Live → Outcome
remove_module m k name live =
    stop_and_note m (get (live.modules k) name) (entity k) name (take_out k name live)

-- `if (lp.vehicle === name) lp.vehicle = undefined`: the field no longer names a vehicle.
abbrev pub unbind : String → Fields → Fields
unbind name lp = if has_text (get lp "vehicle") name then put lp "vehicle" null else lp

unfoldable pub remove_vehicle : Modules → String → Live → Outcome
remove_vehicle m name live =
    let out = take_out vehicle name live in
    stop_and_note m (get (live.modules vehicle) name) (entity vehicle) name (record out {
      config =
          set_entities out.config loadpoint (map (unbind name) (out.config.entities loadpoint));
    })

abbrev section_of : Option Config → SingletonKind → Option Fields
section_of none k = none
section_of (some c) k = some (get_or_else (c.sections k) [])

abbrev assign_section : SingletonKind → String → Live → Option Fields → Outcome
assign_section k name live none = fail live
assign_section k name live (some fields) = note (singleton k) name (record live {
  config = record live.config {
    sections = λ j.
        if same_kind (singleton j) (singleton k)
        then some (spread (get_or_else (live.config.sections k) []) fields)
        else live.config.sections j;
  };
})

-- `Object.assign` onto the live section.
unfoldable pub reload_site : Modules → Config → List OverrideRow → Live → Outcome
reload_site m base rows live =
    assign_section site "site" live (section_of (get_effective_config m.parse base rows) site)

unfoldable pub reload_smart_charging : Modules → Config → List OverrideRow → Live → Outcome
reload_smart_charging m base rows live =
    assign_section smart_charging "smartCharging" live
      (section_of (get_effective_config m.parse base rows) smart_charging)

-- `rebuildCircuits`, from the live configuration.
unfoldable pub rebuild_circuits : Live → Live
rebuild_circuits live = record live {
  circuits = build_circuits (
      map (λ lp. record { name = name_of lp; balancer = text_of (get lp "balancer") })
        (live.config.entities loadpoint));
}

abbrev set_seeded : Option LoadpointState → Dict LoadpointState → String → Dict LoadpointState
set_seeded none states name = states
set_seeded (some s) states name = put states name s

abbrev attach : Option Handle → String → Live → Live
attach none name live = live
attach (some h) name live =
    if is_some (get live.states name)
    then record live { limits = put live.limits name h; wired = put live.wired name h }
    else live

-- The runtime state is seeded from the configuration, and from the row if there is one.
unfoldable pub adopt_loadpoint : Modules → String → Fields → Live → Live
adopt_loadpoint m name cfg live =
    let config = sync_entity live.config loadpoint name cfg in
    let (db, seeded) =
      load_loadpoint_states live.db
        (config_to_loadpoint_inits (m.loadpoints config) (m.chargers config)) in
    let live' = record live {
      config = config;
      db = db;
      states = set_seeded (get seeded name) live.states name;
    } in
    let charger_name = get_or_else (text_of (get cfg "charger")) "" in
    rebuild_circuits (attach (get (live'.modules charger) charger_name) name live')

abbrev add_loadpoint_from : Modules → String → Live → Option (Option Fields) → Outcome
add_loadpoint_from m name live none = fail live
add_loadpoint_from m name live (some none) = skip live
add_loadpoint_from m name live (some (some cfg)) =
    note (entity loadpoint) name (adopt_loadpoint m name cfg live)

unfoldable pub add_loadpoint : Modules → Config → List OverrideRow → String → Live → Outcome
add_loadpoint m base rows name live =
    add_loadpoint_from m name live (desired m base rows loadpoint name)

-- An unknown loadpoint is left alone.
unfoldable pub remove_loadpoint : String → Live → Outcome
remove_loadpoint name live =
    let out = rebuild_circuits (record live {
      config =
          set_entities live.config loadpoint (splice_list (live.config.entities loadpoint) name);
      wired = remove live.wired name;
      limits = remove live.limits name;
      states = remove live.states name;
    }) in
    if any_by (is_named name) (live.config.entities loadpoint)
    then note (entity loadpoint) name out
    else skip live

abbrev reload_loadpoint_from : String → Live → Option (Option Fields) → Outcome
reload_loadpoint_from name live none = fail live
reload_loadpoint_from name live (some none) = skip live
reload_loadpoint_from name live (some (some cfg)) =
    note (entity loadpoint) name
      (record live { config = sync_entity live.config loadpoint name cfg })

unfoldable pub reload_loadpoint : Modules → Config → List OverrideRow → String → Live → Outcome
reload_loadpoint m base rows name live =
    reload_loadpoint_from name live (desired m base rows loadpoint name)
