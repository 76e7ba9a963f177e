-- ===== src/Reconcile/Wiring.antt =====
-- The loadpoints of a charger that src/core/reconcile.ts builds anew, and those of a vehicle that goes.
use open_smart_charge.Base.{
  ℕ, ◌≡◌, ◌⊎◌, inl, inr, refl, sym, ap, ◌∙◌, subst, Bool, true, false, Option, none, some, String,
  List, [], ◌∷◌, if◌then◌else◌, is_some, str_eq, eq_iff, Bool-cases, Option-cases, All, map,
}
use open_smart_charge.Base.Dict.{Dict, get, put, get-put, update, get-update, mapped}
use open_smart_charge.Loadpoint.{LoadpointState}
use open_smart_charge.Config.{
  Fields, has_text, null, Config, OverrideKind, OverrideRow, charger, loadpoint, vehicle, entity,
  same_kind,
}
use open_smart_charge.Reconcile.Entities.{remove_vehicle, unbind, take_out}
use open_smart_charge.Reconcile.Swap.{adopt-modules}
use open_smart_charge.Reconcile.{
  number_of, Modules, stop_and_note, adopt, swap_in, sync_entity, reload_module, desired, build,
  Handle, Live, repoint, repoint_one, name_of,
}

-- The loadpoint sends its limits to the module, and listens to it if it has a state.
abbrev pub IsOn : Handle → Live → Fields → Type 0
IsOn h live lp =
    (get live.limits (name_of lp) ≡ some h)
    × (is_some (get live.states (name_of lp)) ≡ true → get live.wired (name_of lp) ≡ some h)

known-update :
    (m : Dict LoadpointState) (k j : String) (f : LoadpointState → LoadpointState)
    → is_some (get (update m k f) j) ≡ is_some (get m j)
known-update m k j f = ap is_some (get-update m k j f) ∙ go (str_eq k j) (get m j)
  where
    go : (b : Bool) (o : Option LoadpointState) → is_some (if b then mapped o f else o) ≡ is_some o
    go true none = refl
    go true (some s) = refl
    go false o = refl

put_same : (m : Dict Handle) (k : String) (h : Handle) → get (put m k h) k ≡ some h
put_same m k h = get-put m k k h ∙ rw ((eq_iff k k).1 refl) refl

put_keeps :
    (m : Dict Handle) (k j : String) (h : Handle) → get m j ≡ some h → get (put m k h) j ≡ some h
put_keeps m k j h e =
    get-put m k j h
    ∙ elim (Bool-cases (str_eq k j)) [ inl same ↦ rw same refl | inr other ↦ rw other e ]

repoint_one-IsOn :
    (h : Handle) (max_a : Option ℕ) (lp : Fields) (live : Live)
    → IsOn h (repoint_one h max_a lp live) lp
unfolding repoint_one
repoint_one-IsOn h max_a lp live = (
  put_same live.limits (name_of lp) h,
  λ known.
      let on = sym (known-update live.states (name_of lp) (name_of lp) _) ∙ known in
      rw on (put_same live.wired (name_of lp) h),
)

repoint_one-keeps :
    (h : Handle) (max_a : Option ℕ) (lp other : Fields) (live : Live)
    → IsOn h live other
    → IsOn h (repoint_one h max_a lp live) other
unfolding repoint_one
repoint_one-keeps h max_a lp other live (limit, wired) = (
  put_keeps live.limits (name_of lp) (name_of other) h limit,
  λ known.
      let on = wired (sym (known-update live.states (name_of lp) (name_of other) _) ∙ known) in
      pick (is_some (get live.states (name_of lp))) _ _
        (put_keeps live.wired (name_of lp) (name_of other) h on) on,
)
  where
    pick :
        (b : Bool) (x y : Dict Handle)
        → get x (name_of other) ≡ some h
        → get y (name_of other) ≡ some h
        → get (if b then x else y) (name_of other) ≡ some h
    pick true x y p q = p
    pick false x y p q = q

repoint-keeps :
    (name : String) (h : Handle) (max_a : Option ℕ) (lps : List Fields) (other : Fields)
    (live : Live)
    → IsOn h live other
    → IsOn h (repoint name h max_a lps live) other
unfolding repoint
repoint-keeps name h max_a [] other live on = on
repoint-keeps name h max_a (lp ∷ lps) other live on =
    repoint-keeps name h max_a lps other _
      (pick (has_text (get lp "charger") name) _ _ (repoint_one-keeps h max_a lp other live on) on)
  where
    pick :
        (b : Bool) (x y : Live)
        → IsOn h x other
        → IsOn h y other
        → IsOn h (if b then x else y) other
    pick true x y p q = p
    pick false x y p q = q

repoint-All :
    (name : String) (h : Handle) (max_a : Option ℕ) (lps : List Fields) (live : Live)
    → All
        (λ lp. has_text (get lp "charger") name ≡ true → IsOn h (repoint name h max_a lps live) lp)
        lps
unfolding repoint
repoint-All name h max_a [] live = tt
repoint-All name h max_a (lp ∷ lps) live = (
  λ on. repoint-keeps name h max_a lps lp _ (rw on (repoint_one-IsOn h max_a lp live)),
  repoint-All name h max_a lps _,
)

unbind_frees :
    (name : String) (lp : Fields) → has_text (get (unbind name lp) "vehicle") name ≡ false
unbind_frees name lp = elim (Bool-cases (has_text (get lp "vehicle") name)) [
  | inl e ↦ rw e (ap (λ o. has_text o name) (get-put lp "vehicle" "vehicle" null))
  | inr e ↦ rw e e
]

unbound :
    (name : String) (lps : List Fields)
    → All (λ lp. has_text (get lp "vehicle") name ≡ false) (map (unbind name) lps)
unbound name [] = tt
unbound name (lp ∷ lps) = (unbind_frees name lp, unbound name lps)

-- The listeners and limits of a charger's loadpoints.
abbrev pub AreOn : String → Handle → Live → List Fields → Type 0
AreOn name h live lps = All (λ lp. has_text (get lp "charger") name ≡ true → IsOn h live lp) lps

note_keeps :
    (m : Modules) (k : OverrideKind) (name : String) (live : Live) (old : Option Handle)
    (P : Dict Handle → Dict Handle → Dict LoadpointState → Dict Handle → Type 0)
    → P (live.modules charger) live.limits live.states live.wired
    → let out = (stop_and_note m old k name live).live in
      P (out.modules charger) out.limits out.states out.wired
unfolding stop_and_note
note_keeps m k name live none P h = h
note_keeps m k name live (some old) P h = elim (Bool-cases (m.stops old)) [
  | inl e ↦ rw e h
  | inr e ↦ rw e h
]

adopt-AreOn :
    (name : String) (cfg : Fields) (h : Handle) (now : ℕ) (live : Live)
    → AreOn name h (adopt charger name cfg h now live) (live.config.entities loadpoint)
unfolding adopt swap_in sync_entity same_kind
adopt-AreOn name cfg h now live =
    repoint-All name h (number_of (get cfg "maxA")) (live.config.entities loadpoint)
      (swap_in charger name cfg h now live)

remove_vehicle-unbind :
    (m : Modules) (name : String) (live : Live)
    → (remove_vehicle m name live).live.config.entities loadpoint
      ≡ map (unbind name) (live.config.entities loadpoint)
unfolding remove_vehicle stop_and_note take_out same_kind
remove_vehicle-unbind m name live = elim (Option-cases (get (live.modules vehicle) name)) [
  | inl e ↦ rw e refl
  | inr (old, e) ↦ elim (Bool-cases (m.stops old)) [
    | inl s ↦ rw e (rw s refl)
    | inr s ↦ rw e (rw s refl)
  ]
]

-- A charger that is built anew takes over each of its loadpoints: their limits go to the new module, and
-- those with a state listen to it, unless the reload changed nothing. Once a vehicle is removed, no
-- loadpoint is bound to it.
pub reload_charger-AreOn :
    (m : Modules) (base : Config) (rows : List OverrideRow) (name : String) (now : ℕ) (live : Live)
    → let out = reload_module m base rows charger name now live in
      ((out.live ≡ live)
        ⊎ ((h : Handle) × (get (out.live.modules charger) name ≡ some h)
            × AreOn name h out.live (live.config.entities loadpoint)))
      × All
          (λ lp. has_text (get lp "vehicle") name ≡ false)
          ((remove_vehicle m name live).live.config.entities loadpoint)
unfolding reload_module
reload_charger-AreOn m base rows name now live = (
  elim (Option-cases (desired m base rows charger name)) [
    | inl e ↦ inl (rw e refl)
    | inr (none, e) ↦ inl (rw e refl)
    | inr (some cfg, e) ↦ elim (Option-cases (build m charger (m.create charger cfg))) [
      | inl f ↦ inl (rw e (rw f refl))
      | inr (h, f) ↦
          let a = adopt charger name cfg h now live in
          let here : get (a.modules charger) name ≡ some h =
            ap (λ d. get d name) (adopt-modules charger name cfg h now live)
            ∙ put_same (live.modules charger) name h in
          let both =
            note_keeps m (entity charger) name a (get (live.modules charger) name)
              (λ modules limits states wired.
                (get modules name ≡ some h)
                × All
                    (λ lp.
                      has_text (get lp "charger") name ≡ true
                      → (get limits (name_of lp) ≡ some h)
                        × (is_some (get states (name_of lp)) ≡ true
                            → get wired (name_of lp) ≡ some h))
                    (live.config.entities loadpoint))
              (here, adopt-AreOn name cfg h now live) in
          inr (rw e (rw f (h, both.0, both.1)))
    ]
  ],
  subst (All (λ lp. has_text (get lp "vehicle") name ≡ false))
      (sym (remove_vehicle-unbind m name live)) (unbound name (live.config.entities loadpoint)),
)
