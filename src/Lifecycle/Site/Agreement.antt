-- ===== src/Lifecycle/Site/Agreement.antt =====
-- The live state of src/core/lifecycle.ts against the persisted rows: what a restart would load.
use open_smart_charge.Base.{
  ◌≡◌, refl, sym, ap, ◌∙◌, Bool, true, false, Option, none, some, String, ℕ, str_eq, if◌then◌else◌,
}
use mathlib.Core.Option.{some-injective}
use open_smart_charge.Base.Dict.{Dict, get, update, get-update, mapped}
use open_smart_charge.Balancer.{Mode}
use open_smart_charge.Charger.{ChargerStatus}
use open_smart_charge.Loadpoint.{
  LoadpointState, DbRow, TargetPatch, patched, update_row, set_loadpoint_mode, set_loadpoint_target,
  set_loadpoint_vehicle_override,
}
use open_smart_charge.Lifecycle.Site.{
  Runtime, Site, with_mode, with_override, with_target, folded, save_mode, save_override,
  save_target, charger_status,
}

-- The persisted fields of a live state.
abbrev pub row_of_state : LoadpointState → DbRow
row_of_state s = record {
  mode = s.mode;
  target_soc = s.target_soc;
  target_time = s.target_time;
  target_kwh = s.target_kwh;
  min_soc = s.min_soc;
  guest_override = s.vehicle_override;
}

-- Every live state is what its row says.
abbrev pub Agrees : Dict Runtime → Dict DbRow → Type 0
Agrees states db =
    (name : String) (r : Runtime)
    → get states name ≡ some r
    → get db name ≡ some (row_of_state r.state)

-- The same change on both sides keeps them in agreement.
pub update-Agrees :
    (states : Dict Runtime) (db : Dict DbRow) (name : String) (f : Runtime → Runtime)
    (g : DbRow → DbRow)
    → ((r : Runtime) → row_of_state (f r).state ≡ g (row_of_state r.state))
    → Agrees states db
    → Agrees (update states name f) (update_row db name g)
unfolding update_row
update-Agrees states db name f g same h j r e =
    rw (get-update db name j g)
      (go (str_eq name j) (get states j) (get db j) (h j) (sym (get-update states name j f) ∙ e))
  where
    go :
        (b : Bool) (s : Option Runtime) (d : Option DbRow)
        → ((q : Runtime) → s ≡ some q → d ≡ some (row_of_state q.state))
        → (if b then mapped s f else s) ≡ some r
        → (if b then mapped d g else d) ≡ some (row_of_state r.state)
    go true none d k e' = absurd (cc)
    go true (some q) d k e' =
        rw (k q refl)
          (ap some (sym (same q) ∙ ap (λ x. row_of_state x.state) (some-injective _ _ e')))
    go false s d k e' = k r e'

-- A change of a live state that leaves the persisted fields alone.
pub live-Agrees :
    (states : Dict Runtime) (db : Dict DbRow) (name : String) (f : Runtime → Runtime)
    → ((r : Runtime) → row_of_state (f r).state ≡ row_of_state r.state)
    → Agrees states db
    → Agrees (update states name f) db
live-Agrees states db name f same h j r e =
    go (str_eq name j) (get states j) (h j) (sym (get-update states name j f) ∙ e)
  where
    go :
        (b : Bool) (s : Option Runtime)
        → ((q : Runtime) → s ≡ some q → get db j ≡ some (row_of_state q.state))
        → (if b then mapped s f else s) ≡ some r
        → get db j ≡ some (row_of_state r.state)
    go true none k e' = absurd (cc)
    go true (some q) k e' =
        k q refl ∙ ap some (sym (same q) ∙ ap (λ x. row_of_state x.state) (some-injective _ _ e'))
    go false s k e' = k r e'

pub save_mode-Agrees :
    (site : Site) (name : String) (mode : Mode)
    → Agrees site.states site.db
    → let s = save_mode site name mode in Agrees s.states s.db
unfolding save_mode set_loadpoint_mode
save_mode-Agrees site name mode h =
    update-Agrees site.states site.db name (with_mode mode) (λ r. record r { mode = mode })
      (λ r. refl) h

pub save_override-Agrees :
    (site : Site) (name : String) (o : Option String)
    → Agrees site.states site.db
    → let s = save_override site name o in Agrees s.states s.db
unfolding save_override set_loadpoint_vehicle_override
save_override-Agrees site name o h =
    update-Agrees site.states site.db name (with_override o) (λ r. record r { guest_override = o })
      (λ r. refl) h

pub save_target-Agrees :
    (site : Site) (name : String) (p : TargetPatch)
    → Agrees site.states site.db
    → let s = save_target site name p in Agrees s.states s.db
unfolding save_target set_loadpoint_target
save_target-Agrees site name p h =
    update-Agrees site.states site.db name (with_target p) (patched p) (λ r. refl) h

pub charger_status-Agrees :
    (site : Site) (name : String) (status : ChargerStatus) (now : ℕ)
    → Agrees site.states site.db
    → let s = charger_status site name status now in Agrees s.states s.db
unfolding charger_status
charger_status-Agrees site name status now h =
    live-Agrees site.states site.db name (folded status) (λ r. refl) h
