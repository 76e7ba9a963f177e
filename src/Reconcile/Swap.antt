-- ===== src/Reconcile/Swap.antt =====
-- A reload of src/core/reconcile.ts is all or nothing: the new module is built before anything changes.
use open_smart_charge.Base.{
  ℕ, ◌≡◌, ◌⊎◌, inl, inr, refl, ap, ◌∙◌, Bool, true, false, Option, none, some, String, List, [],
  ◌∷◌, ◌++◌, if◌then◌else◌, str_eq, eq_iff, find_by, Bool-cases, Option-cases,
}
use open_smart_charge.Base.Dict.{Dict, get, put, get-put}
use open_smart_charge.Config.{
  Fields, Config, EntityKind, entity, loadpoint, charger, vehicle, is_named, has_text,
}
use open_smart_charge.Config.Keys.{same_kind_refl}
use open_smart_charge.Reconcile.{
  Handle, Modules, Live, Outcome, sync_list, sync_entity, set_module, swap_in, stop_and_note,
  repoint, repoint_one, adopt,
}

find-sync_list :
    (es : List Fields) (name : String) (cfg : Fields)
    → is_named name cfg ≡ true
    → find_by (is_named name) (sync_list es name cfg) ≡ some cfg
unfolding sync_list
find-sync_list [] name cfg h = rw h refl
find-sync_list (e ∷ es) name cfg h = elim (Bool-cases (is_named name e)) [
  | inl here ↦ rw here (rw h refl)
  | inr other ↦ rw other (rw other (find-sync_list es name cfg h))
]

-- What the loop over a charger's loadpoints leaves alone.
abbrev SameCore : Live → Live → Type 0
SameCore a b =
    (a.modules ≡ b.modules)
    × (a.config ≡ b.config)
    × (a.stopped ≡ b.stopped)
    × (a.events ≡ b.events)

pick : (b : Bool) (x y : Live) (P : Live → Type 0) → P x → P y → P (if b then x else y)
pick true x y P px py = px
pick false x y P px py = py

repoint-SameCore :
    (name : String) (h : Handle) (max_a : Option ℕ) (lps : List Fields) (live : Live)
    → SameCore (repoint name h max_a lps live) live
unfolding repoint repoint_one
repoint-SameCore name h max_a [] live = (refl, refl, refl, refl)
repoint-SameCore name h max_a (lp ∷ lps) live =
    pick (has_text (get lp "charger") name) _ _ (λ l. SameCore (repoint name h max_a lps l) live)
      (repoint-SameCore name h max_a lps (repoint_one h max_a lp live))
      (repoint-SameCore name h max_a lps live)

adopt-SameCore :
    (k : EntityKind) (name : String) (cfg : Fields) (h : Handle) (now : ℕ) (live : Live)
    → SameCore (adopt k name cfg h now live) (swap_in k name cfg h now live)
unfolding adopt
adopt-SameCore charger name cfg h now live =
    let swapped = swap_in charger name cfg h now live in
    repoint-SameCore name h _ (swapped.config.entities loadpoint) swapped
adopt-SameCore EntityKind.tariff name cfg h now live = (refl, refl, refl, refl)
adopt-SameCore EntityKind.balancer name cfg h now live = (refl, refl, refl, refl)
adopt-SameCore EntityKind.vehicle name cfg h now live = (refl, refl, refl, refl)
adopt-SameCore EntityKind.meter_reader name cfg h now live = (refl, refl, refl, refl)
adopt-SameCore loadpoint name cfg h now live = (refl, refl, refl, refl)

abbrev pub with_old : Option Handle → List Handle → List Handle
with_old none hs = hs
with_old (some old) hs = hs ++ (old ∷ [])

-- Whether the old module, if there is one, stops.
abbrev pub lets_go : Modules → Option Handle → Bool
lets_go m none = true
lets_go m (some old) = m.stops old

-- This module and its configuration are in place, the other modules of its kind are as they were, the
-- old one was asked to stop, and unless that failed the call was completed and the event was sent.
abbrev pub IsSwapped : Modules → EntityKind → String → Fields → Handle → Live → Outcome → Type 0
IsSwapped m k name cfg h live out =
    (get (out.live.modules k) name ≡ some h)
    × (find_by (is_named name) (out.live.config.entities k) ≡ some cfg)
    × ((other : String)
        → str_eq name other ≡ false
        → get (out.live.modules k) other ≡ get (live.modules k) other)
    × (out.live.stopped ≡ with_old (get (live.modules k) name) live.stopped)
    × (out.completed ≡ lets_go m (get (live.modules k) name))
    × (out.live.events
        ≡ (if out.completed then live.events ++ ((entity k, name) ∷ []) else live.events))

module_here :
    (ms : EntityKind → Dict Handle) (k : EntityKind) (d : Dict Handle) → set_module ms k d k ≡ d
module_here ms k d = rw (same_kind_refl (entity k)) refl

pub adopt-modules :
    (k : EntityKind) (name : String) (cfg : Fields) (h : Handle) (now : ℕ) (live : Live)
    → (adopt k name cfg h now live).modules k ≡ put (live.modules k) name h
unfolding swap_in
adopt-modules k name cfg h now live =
    ap (λ ms. ms k) (adopt-SameCore k name cfg h now live).0
    ∙ module_here live.modules k (put (live.modules k) name h)

adopt-entities :
    (k : EntityKind) (name : String) (cfg : Fields) (h : Handle) (now : ℕ) (live : Live)
    → (adopt k name cfg h now live).config.entities k ≡ sync_list (live.config.entities k) name cfg
unfolding swap_in sync_entity
adopt-entities k name cfg h now live =
    ap (λ c. c.entities k) (adopt-SameCore k name cfg h now live).1
    ∙ rw (same_kind_refl (entity k)) refl

swapped :
    (m : Modules) (k : EntityKind) (name : String) (cfg : Fields) (h : Handle) (now : ℕ)
    (live : Live)
    → is_named name cfg ≡ true
    → IsSwapped m k name cfg h live
        (stop_and_note m (get (live.modules k) name) (entity k) name (adopt k name cfg h now live))
unfolding stop_and_note swap_in
swapped m k name cfg h now live named =
    let a = adopt k name cfg h now live in
    let here : get (a.modules k) name ≡ some h =
      ap (λ d. get d name) (adopt-modules k name cfg h now live)
      ∙ get-put (live.modules k) name name h
      ∙ rw ((eq_iff name name).1 refl) refl in
    let found : find_by (is_named name) (a.config.entities k) ≡ some cfg =
      ap (find_by (is_named name)) (adopt-entities k name cfg h now live)
      ∙ find-sync_list (live.config.entities k) name cfg named in
    let others : (o : String)
        → str_eq name o ≡ false
        → get (a.modules k) o ≡ get (live.modules k) o =
      λ o e.
        ap (λ d. get d o) (adopt-modules k name cfg h now live)
        ∙ get-put (live.modules k) name o h
        ∙ rw e refl in
    let (same1, same2, same3, same4) = adopt-SameCore k name cfg h now live in
    elim (Option-cases (get (live.modules k) name)) [
      | inl e ↦
          rw e (here, found, others, same3, refl, ap (λ l. l ++ ((entity k, name) ∷ [])) same4)
      | inr (old, e) ↦ elim (Bool-cases (m.stops old)) [
        | inl stops ↦ rw e (
            rw stops (
              here,
              found,
              others,
              ap (λ l. l ++ (old ∷ [])) same3,
              refl,
              ap (λ l. l ++ ((entity k, name) ∷ [])) same4,
            ))
        | inr hangs ↦
            rw e (rw hangs (here, found, others, ap (λ l. l ++ (old ∷ [])) same3, refl, same4))
      ]
    ]

-- A module runs once it is created and started; a vehicle's is not started.
abbrev pub IsRunning : Modules → EntityKind → Fields → Handle → Type 0
IsRunning m k cfg h = (m.create k cfg ≡ some h) × ((k ≡ vehicle) ⊎ (m.starts h ≡ true))

abbrev pub CannotRun : Modules → EntityKind → Fields → Type 0
CannotRun m k cfg =
    (m.create k cfg ≡ none)
    ⊎ ((k ≡ vehicle → ⊥) × (h : Handle) × (m.create k cfg ≡ some h) × (m.starts h ≡ false))

-- Nothing changed, and whether the call was completed.
abbrev pub IsLeft : Bool → Live → Outcome → Type 0
IsLeft completed live out = (out.live ≡ live) × (out.completed ≡ completed)
