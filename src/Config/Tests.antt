-- ===== src/Config/Tests.antt =====
-- Overrides at concrete inputs.
use open_smart_charge.Base.{
  ◌+◌, ◌≡◌, refl, true, false, ◌&&◌, Bool, none, some, List, [], ◌∷◌, if◌then◌else◌, get_or_else,
  str_eq, All, length,
}
use open_smart_charge.Base.Int.{pos}
use open_smart_charge.Base.Dict.{get, put}
use open_smart_charge.Config.{
  Config, Fields, OverrideRow, text, number, entity, EntityKind, same_kind, is_key, in_base, spread,
  get_override, set_override, delete_override, insert_row, update_rows, merge_all,
  merge_override_into, merge_entity, apply_config_overrides, apply_rows,
}
use open_smart_charge.Config.Overlay.{get_override-set_override, or_else, last_of}
use open_smart_charge.Config.Reassert.{IsAdded, Extends, apply_config_overrides-Extends}

abbrev no_order : OverrideRow → OverrideRow → Bool
no_order a b = false

abbrev wallbox : Fields
wallbox = ("name", text "wallbox") ∷ ("maxA", number (pos 16_000)) ∷ []

-- A file with one charger.
abbrev file : Config
file = record {
  sections = λ k. none;
  entities = λ k. if same_kind (entity k) (entity EntityKind.charger) then wallbox ∷ [] else [];
}

-- The charger of the file at 10 A, and one that was claimed.
abbrev rows : List OverrideRow
rows =
    record {
      kind = entity EntityKind.charger;
      name = "wallbox";
      patch = ("maxA", number (pos 10_000)) ∷ [];
    }
    ∷ record {
      kind = entity EntityKind.charger;
      name = "claimed";
      patch = ("stationId", text "S1") ∷ [];
    }
    ∷ []

get_override-set_override_example :
    let k = entity EntityKind.charger in
    let patch : Fields = ("maxA", number (pos 20_000)) ∷ [] in
    let old = get_or_else (get_override rows k "claimed") [] in
    (get_override (set_override no_order rows k "claimed" patch) k "wallbox" ≡ (
      if same_kind k k && str_eq "claimed" "wallbox"
      then some (spread old patch)
      else get_override rows k "wallbox"))
    × (get_override (delete_override rows k "claimed").0 k "wallbox" ≡ (
        if same_kind k k && str_eq "claimed" "wallbox"
        then none
        else get_override rows k "wallbox"))
    × (get (spread old patch) "maxA" ≡ or_else (last_of patch "maxA") (get old "maxA"))
get_override-set_override_example =
    get_override-set_override no_order rows (entity EntityKind.charger) "claimed"
      (("maxA", number (pos 20_000)) ∷ []) (entity EntityKind.charger) "wallbox" "maxA"

merged :
    get_override
      (set_override no_order rows
        (entity EntityKind.charger)
        "claimed"
        (("maxA", number (pos 20_000)) ∷ []))
      (entity EntityKind.charger)
      "claimed"
    ≡ some (("stationId", text "S1") ∷ ("maxA", number (pos 20_000)) ∷ [])
unfolding set_override get_override update_rows is_key same_kind spread put insert_row
merged = refl

apply_config_overrides-Extends_example :
    let kept = (apply_config_overrides file rows false).rows in
    All (IsAdded file) kept
    × Extends file (merge_all file kept)
    × (merge_all file (apply_config_overrides file rows true).rows ≡ file)
    × (let out = apply_config_overrides file rows false in
        length out.cleared + length out.preserved ≡ length rows)
apply_config_overrides-Extends_example = apply_config_overrides-Extends file rows

-- The claimed charger stays, at the end.
still_claimed :
    (merge_all file (apply_config_overrides file rows false).rows).entities EntityKind.charger
    ≡ wallbox ∷ (("name", text "claimed") ∷ ("stationId", text "S1") ∷ []) ∷ []
unfolding merge_all apply_config_overrides apply_rows merge_override_into merge_entity
    delete_override is_key same_kind in_base spread put get
still_claimed = refl
