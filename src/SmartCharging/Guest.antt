-- ===== src/SmartCharging/Guest.antt =====
-- src/core/smart-charging/guest.ts: which vehicle is on the charger. `none` is the guest. A name that
-- is the empty text counts as no name, as in the source's truth tests.
use mathlib.Core.Option.{some-injective}
use open_smart_charge.Base.{
  ◌≡◌, ◌≢◌, refl, ◌∙◌, ◌⊎◌, inl, inr, Bool, true, false, ◌&&◌, not, Option, none, some, String,
  List, [], ◌∷◌, arith, is_true, is_false, if◌then◌else◌, filter_by, any_by, str_eq, eq_iff,
  Bool-cases, subst,
}

abbrev pub guest : String
guest = "guest"

pub record ActiveVehicleInput : Type 0 where
  pub candidates : List String
  pub connected : Bool
  -- Each vehicle's own view of its plug.
  pub plugged_in : String → Option Bool
  pub vehicle_override : Option String
  pub latched : Option String

abbrev pub includes : List String → String → Bool
includes names n = any_by (λ m. str_eq m n) names

unfoldable pub claimants_of : List String → (String → Option Bool) → List String
claimants_of candidates plugged_in = filter_by (λ c. is_true (plugged_in c)) candidates

abbrev only : List String → Option String
only (c ∷ []) = some c
only _ = none

unfoldable pub positive_claimant : List String → (String → Option Bool) → Option String
positive_claimant candidates plugged_in = only (claimants_of candidates plugged_in)

unfoldable pub truthy : Option String → Option String
truthy none = none
truthy (some t) = if str_eq t "" then none else some t

-- The latched name, if there is one and it passes a test.
abbrev keep_latch : (String → Bool) → Option String → Option String
keep_latch test none = none
keep_latch test (some l) = if test l then some l else none

-- No claim of one car and no override.
unfoldable pub resolve_auto : ActiveVehicleInput → List String → List String → Option String
resolve_auto i (c ∷ d ∷ rest) candidates = keep_latch (includes (c ∷ d ∷ rest)) (truthy i.latched)
resolve_auto i claimants (c ∷ []) = if is_false (i.plugged_in c) then none else some c
resolve_auto i claimants candidates =
    keep_latch (λ l. includes candidates l && not (is_false (i.plugged_in l))) (truthy i.latched)

abbrev by_override : ActiveVehicleInput → Option String → Option String
by_override i none = resolve_auto i (claimants_of i.candidates i.plugged_in) i.candidates
by_override i (some o) =
    if str_eq o guest then none else if includes i.candidates o then some o else none

abbrev by_claim : ActiveVehicleInput → Option String → Option String
by_claim i none = by_override i i.vehicle_override
by_claim i (some claim) = some claim

unfoldable pub resolve_active_vehicle : ActiveVehicleInput → Option String
resolve_active_vehicle i =
    if i.connected then by_claim i (truthy (positive_claimant i.candidates i.plugged_in)) else none

is_true→some : (b : Option Bool) → is_true b ≡ true → b ≡ some true
is_true→some b h = ground arith

not_is_false : (b : Option Bool) → is_false b ≡ false → b ≢ some false
not_is_false b h = ground arith

includes_claimants :
    (p : String → Option Bool) (names : List String) (n : String)
    → includes (claimants_of names p) n ≡ true
    → (includes names n ≡ true) × (p n ≡ some true)
unfolding claimants_of
includes_claimants p [] n h = absurd (cc)
includes_claimants p (m ∷ ms) n h =
    ground (arith, eq_iff m n, includes_claimants p ms n, is_true→some (p m))

only-includes : (cs : List String) (v : String) → only cs ≡ some v → includes cs v ≡ true
only-includes [] v h = absurd (cc)
only-includes (c ∷ []) v h = ground (arith, eq_iff c v)
only-includes (c ∷ d ∷ cs) v h = absurd (cc)

truthy-some : (o : Option String) (v : String) → truthy o ≡ some v → o ≡ some v
unfolding truthy
truthy-some o v h = ground arith

keep_latch_test :
    (test : String → Bool) (o : Option String) (v : String)
    → keep_latch test o ≡ some v
    → test v ≡ true
keep_latch_test test none v h = absurd (cc)
keep_latch_test test (some l) v h = elim (Bool-cases (test l)) [
  | inl t ↦ subst (λ x. test x ≡ true) (some-injective _ _ (rw t at h)) t
  | inr f ↦ absurd (let g : none ≡ some v = rw f at h in cc)
]

-- A vehicle that may be the answer: a candidate that does not say that it is unplugged.
abbrev pub MayBe : ActiveVehicleInput → String → Type 0
MayBe i v = (includes i.candidates v ≡ true) × (i.plugged_in v ≢ some false)

latch-MayBe :
    (i : ActiveVehicleInput) (cs : List String) (o : Option String) (v : String)
    → keep_latch (λ l. includes cs l && not (is_false (i.plugged_in l))) o ≡ some v
    → (includes cs v ≡ true) × (i.plugged_in v ≢ some false)
latch-MayBe i cs o v h = let t = keep_latch_test _ o v h in ground arith

resolve_auto_sound :
    (i : ActiveVehicleInput) (claims cs : List String) (v : String)
    → ((n : String)
        → includes claims n ≡ true
        → (includes cs n ≡ true) × (i.plugged_in n ≡ some true))
    → resolve_auto i claims cs ≡ some v
    → (includes cs v ≡ true) × (i.plugged_in v ≢ some false)
unfolding resolve_auto
resolve_auto_sound i (c ∷ d ∷ rest) cs v g h =
    let (e, p) = g v (keep_latch_test _ (truthy i.latched) v h) in (e, λ q. cc)
resolve_auto_sound i [] (c ∷ []) v g h = ground (arith, eq_iff c v)
resolve_auto_sound i (b ∷ []) (c ∷ []) v g h = ground (arith, eq_iff c v)
resolve_auto_sound i [] [] v g h = latch-MayBe i [] _ v h
resolve_auto_sound i [] (c ∷ d ∷ cs) v g h = latch-MayBe i (c ∷ d ∷ cs) _ v h
resolve_auto_sound i (b ∷ []) [] v g h = latch-MayBe i [] _ v h
resolve_auto_sound i (b ∷ []) (c ∷ d ∷ cs) v g h = latch-MayBe i (c ∷ d ∷ cs) _ v h

claim-MayBe :
    (i : ActiveVehicleInput) (v : String)
    → truthy (positive_claimant i.candidates i.plugged_in) ≡ some v
    → (includes i.candidates v ≡ true) × (i.plugged_in v ≡ some true)
unfolding positive_claimant
claim-MayBe i v h =
    includes_claimants i.plugged_in i.candidates v (only-includes _ v (truthy-some _ v h))

then_some :
    (b : Bool) (x : Option String) (v : String)
    → (if b then x else none) ≡ some v
    → (b ≡ true) × (x ≡ some v)
then_some b x v h = ground arith

else_some :
    (b : Bool) (x : Option String) (v : String) → (if b then none else x) ≡ some v → x ≡ some v
else_some b x v h = ground arith

-- The vehicle that is found is a configured candidate, on a connected plug; it is never one whose own
-- telemetry says that it is unplugged, unless the user picked it; and it is the user's pick, if there
-- is one and no single car claims the plug.
pub resolve_active_vehicle_sound :
    (i : ActiveVehicleInput) (v : String)
    → resolve_active_vehicle i ≡ some v
    → (i.connected ≡ true)
      × (includes i.candidates v ≡ true)
      × ((i.plugged_in v ≢ some false) ⊎ (i.vehicle_override ≡ some v))
      × ((i.plugged_in v ≡ some true)
          ⊎ ((i.vehicle_override ≡ none) ⊎ (i.vehicle_override ≡ some v)))
unfolding resolve_active_vehicle
resolve_active_vehicle_sound i v h =
    let (on, g) = then_some i.connected _ v h in
    let (a, b, c) = of_claim (truthy (positive_claimant i.candidates i.plugged_in)) refl g in
    (on, a, b, c)
  where
    Answer : Type 0
    Answer =
        (includes i.candidates v ≡ true)
        × ((i.plugged_in v ≢ some false) ⊎ (i.vehicle_override ≡ some v))
        × ((i.plugged_in v ≡ some true)
            ⊎ ((i.vehicle_override ≡ none) ⊎ (i.vehicle_override ≡ some v)))

    of_override : (o : Option String) → i.vehicle_override ≡ o → by_override i o ≡ some v → Answer
    of_override none e g =
        let (a, b) =
          resolve_auto_sound i (claimants_of i.candidates i.plugged_in) i.candidates v
            (includes_claimants i.plugged_in i.candidates) g in
        (a, inl b, inr (inl e))
    of_override (some o) e g =
        let (known, g') =
          then_some (includes i.candidates o) (some o) v (else_some (str_eq o guest) _ v g) in
        let picked : o ≡ v = some-injective _ _ g' in
        (subst (λ n. includes i.candidates n ≡ true) picked known, inr (e ∙ g'), inr (inr (e ∙ g')))

    of_claim :
        (o : Option String)
        → truthy (positive_claimant i.candidates i.plugged_in) ≡ o
        → by_claim i o ≡ some v
        → Answer
    of_claim none e g = of_override i.vehicle_override refl g
    of_claim (some c) e g = let (a, b) = claim-MayBe i v (e ∙ g) in (a, inl (λ q. cc), inl b)
