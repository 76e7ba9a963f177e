-- ===== src/Reconcile/Tests.antt =====
-- Reloads at concrete inputs.
use open_smart_charge.Base.{◌≡◌, ◌⊎◌, refl, true, false, none, some, [], ◌∷◌, All}
use open_smart_charge.Base.Int.{pos}
use open_smart_charge.Base.Dict.{get, put}
use open_smart_charge.Health.{ok}
use open_smart_charge.Config.{
  Config, Fields, text, number, loadpoint, charger, same_kind, has_text, get_effective_config,
  merge_all,
}
use open_smart_charge.Reconcile.{
  desired, Handle, Modules, Live, reload_module, desired, adopt, swap_in, repoint, repoint_one,
  sync_entity, sync_list, stop_and_note,
}
use open_smart_charge.Reconcile.Entities.{remove_vehicle}
use open_smart_charge.Reconcile.Wiring.{AreOn, reload_charger-AreOn}

abbrev wallbox : Fields
wallbox = ("name", text "wallbox") ∷ ("maxA", number (pos 16_000)) ∷ []

abbrev garage : Fields
garage = ("name", text "garage") ∷ ("charger", text "wallbox") ∷ ("vehicle", text "skoda") ∷ []

abbrev file : Config
file = record {
  sections = λ k. none;
  entities = λ k. elim k [ charger ↦ wallbox ∷ [] | loadpoint ↦ garage ∷ [] | _ ↦ [] ];
}

-- Every module builds and starts, and the second one stops.
abbrev modules : Modules
modules = record {
  create = λ k cfg. some (record { id = 2; health = ok });
  starts = λ h. true;
  stops = λ h. true;
  parse = λ c. some c;
  loadpoints = λ c. [];
  chargers = λ c. [];
}

abbrev live : Live
live = record {
  config = file;
  modules = λ k. elim k [ charger ↦ ("wallbox", record { id = 1; health = ok }) ∷ [] | _ ↦ [] ];
  health = [];
  states = [];
  db = [];
  limits = ("garage", record { id = 1; health = ok }) ∷ [];
  wired = [];
  circuits = [];
  stopped = [];
  events = [];
}

reload_charger-AreOn_example :
    let out = reload_module modules file [] charger "wallbox" 1_000 live in
    ((out.live ≡ live)
      ⊎ ((h : Handle) × (get (out.live.modules charger) "wallbox" ≡ some h)
          × AreOn "wallbox" h out.live (live.config.entities loadpoint)))
    × All
        (λ lp. has_text (get lp "vehicle") "wallbox" ≡ false)
        ((remove_vehicle modules "wallbox" live).live.config.entities loadpoint)
reload_charger-AreOn_example = reload_charger-AreOn modules file [] "wallbox" 1_000 live

repointed :
    (reload_module modules file [] charger "wallbox" 1_000 live).live.limits
    ≡ ("garage", record { id = 2; health = ok }) ∷ []
unfolding reload_module desired get_effective_config merge_all stop_and_note adopt swap_in repoint
    repoint_one sync_entity sync_list same_kind get put
repointed = refl
