-- ===== src/ConfigIo/RoundTrip.antt =====
-- A redacted vehicle shows no secret, and comes back as it was.
use mathlib.Core.Option.{some-injective}
use open_smart_charge.Base.{
  Option, none, some, String, List, [], ◌∷◌, Bool, true, false, str_eq, if◌then◌else◌, ◌≡◌, refl,
  sym, ap, ◌∙◌, any_by, Bool-cases, inl, inr, All, arith, eq_iff, ◌&&◌, ◌||◌,
}
use open_smart_charge.Base.Dict.{get, mapped, get-put, get-remove, get-update}
use open_smart_charge.Config.{Value, text, number, flag, null, nested, Fields}
use open_smart_charge.ConfigIo.{
  redacted, redact_inside, redact_value, redact_passwords, secret_vehicle_keys, redact_keys,
  redact_vehicle, is_redacted, keep, restore_keys, coalesce, de_redact_vehicle,
}

abbrev pub is_among : List String → String → Bool
is_among ks k = any_by (λ j. str_eq j k) ks

get-redact_passwords :
    (v : Fields) (k : String) → get (redact_passwords v) k ≡ mapped (get v k) (redact_value k)
unfolding get redact_passwords
get-redact_passwords [] k = refl
get-redact_passwords ((j, x) ∷ v) k = elim (Bool-cases (str_eq j k)) [
  | inl e ↦ rw e (ap (λ i. some (redact_value i x)) ((eq_iff j k).0 e))
  | inr e ↦ rw e (get-redact_passwords v k)
]

get-redact_keys :
    (ks : List String) (v : Fields) (k : String)
    → get (redact_keys ks v) k
      ≡ (if is_among ks k then mapped (get v k) (λ x. text redacted) else get v k)
unfolding redact_keys
get-redact_keys [] v k = refl
get-redact_keys (j ∷ ks) v k = get-redact_keys ks _ k ∙ twice _ (get-update v j k _)
  where
    twice :
        (o : Option Value)
        → o ≡ (if str_eq j k then mapped (get v k) (λ x. text redacted) else get v k)
        → (if is_among ks k then mapped o (λ x. text redacted) else o)
          ≡ (if str_eq j k || is_among ks k then mapped (get v k) (λ x. text redacted) else get v k)
    twice o e = ground (arith, e)

restored : Bool → Option Value → Option Value → Option Value
restored b cur o = if b && is_redacted o then cur else o

get-keep :
    (real : Option Value) (v : Fields) (j k : String)
    → get (keep real v j) k ≡ (if str_eq j k then real else get v k)
unfolding keep
get-keep none v j k = get-remove v j k
get-keep (some real) v j k = get-put v j k real

restored_twice :
    (a b : Bool) (cur o : Option Value)
    → restored b cur (restored a cur o) ≡ restored (a || b) cur o
unfolding restored
restored_twice true b cur o = elim (Bool-cases (is_redacted o)) [
  | inl e ↦ rw e (same (b && is_redacted cur))
  | inr e ↦ rw (e, e) (ground arith)
]
  where
    same : (c : Bool) → (if c then cur else cur) ≡ cur
    same c = ground arith
restored_twice false b cur o = refl

get-restore_one :
    (cur v : Fields) (j k : String)
    → get (if is_redacted (get v j) then keep (get cur j) v j else v) k
      ≡ restored (str_eq j k) (get cur k) (get v k)
unfolding restored
get-restore_one cur v j k = elim (Bool-cases (is_redacted (get v j))) [
  | inl e ↦ rw e (
      get-keep (get cur j) v j k ∙ elim (Bool-cases (str_eq j k)) [
        | inl f ↦
            let eq = (eq_iff j k).0 f in
            rw (f, ap (λ i. is_redacted (get v i)) (sym eq) ∙ e) (ap (get cur) eq)
        | inr f ↦ rw f refl
      ])
  | inr e ↦ rw e (elim (Bool-cases (str_eq j k)) [
    | inl f ↦ rw (f, ap (λ i. is_redacted (get v i)) (sym ((eq_iff j k).0 f)) ∙ e) refl
    | inr f ↦ rw f refl
  ])
]

get-restore_keys :
    (ks : List String) (cur v : Fields) (k : String)
    → get (restore_keys ks cur v) k ≡ restored (is_among ks k) (get cur k) (get v k)
unfolding restore_keys restored
get-restore_keys [] cur v k = refl
get-restore_keys (j ∷ ks) cur v k =
    get-restore_keys ks cur _ k
    ∙ ap (restored (is_among ks k) (get cur k)) (get-restore_one cur v j k)
    ∙ restored_twice (str_eq j k) (is_among ks k) (get cur k) (get v k)

-- The names of a vehicle's secret fields.
abbrev pub keys_of : (String → List String) → Fields → List String
keys_of secrets_of v = secret_vehicle_keys secrets_of (get v "type")

secret_keys_stay :
    (secrets_of : String → List String) (o : Option Value)
    → secret_vehicle_keys secrets_of (mapped o (redact_value "type"))
      ≡ secret_vehicle_keys secrets_of o
unfolding secret_vehicle_keys redact_value redact_inside
secret_keys_stay secrets_of none = refl
secret_keys_stay secrets_of (some (text t)) = refl
secret_keys_stay secrets_of (some (number n)) = refl
secret_keys_stay secrets_of (some (flag b)) = refl
secret_keys_stay secrets_of (some null) = refl
secret_keys_stay secrets_of (some (nested fs)) = refl

mapped_twice :
    (o : Option Value) (f : Value → Value)
    → mapped (mapped o f) (λ x. text redacted) ≡ mapped o (λ x. text redacted)
mapped_twice none f = refl
mapped_twice (some x) f = refl

get-redact_vehicle :
    (secrets_of : String → List String) (v : Fields) (k : String)
    → get (redact_vehicle secrets_of v) k ≡ (
        if is_among (keys_of secrets_of v) k
        then mapped (get v k) (λ x. text redacted)
        else mapped (get v k) (redact_value k))
unfolding redact_vehicle
get-redact_vehicle secrets_of v k =
    get-redact_keys _ (redact_passwords v) k
    ∙ rw (keys_as_before, get-redact_passwords v k, mapped_twice (get v k) (redact_value k)) refl
  where
    keys_as_before :
        secret_vehicle_keys secrets_of (get (redact_passwords v) "type") ≡ keys_of secrets_of v
    keys_as_before =
        ap (secret_vehicle_keys secrets_of) (get-redact_passwords v "type")
        ∙ secret_keys_stay secrets_of (get v "type")

keys_on_import :
    (secrets_of : String → List String) (o : Option Value)
    → secret_vehicle_keys secrets_of (coalesce (mapped o (redact_value "type")) o)
      ≡ secret_vehicle_keys secrets_of o
unfolding secret_vehicle_keys redact_value redact_inside coalesce
keys_on_import secrets_of none = refl
keys_on_import secrets_of (some (text t)) = refl
keys_on_import secrets_of (some (number n)) = refl
keys_on_import secrets_of (some (flag b)) = refl
keys_on_import secrets_of (some null) = refl
keys_on_import secrets_of (some (nested fs)) = refl

-- No object among the fields holds a password.
abbrev pub IsFlat : Fields → Type 0
IsFlat v = (k : String) (x : Value) → get v k ≡ some x → redact_inside x ≡ x

comes_back :
    (b : Bool) (k : String) (o : Option Value)
    → (b ≡ false → str_eq k "password" ≡ false)
    → ((x : Value) → o ≡ some x → redact_inside x ≡ x)
    → restored b o (if b then mapped o (λ x. text redacted) else mapped o (redact_value k)) ≡ o
unfolding restored is_redacted redact_value
comes_back true k none h flat = refl
comes_back true k (some x) h flat = refl
comes_back false k none h flat = refl
comes_back false k (some x) h flat = rw (h refl) (ap some (flat x refl))

shows :
    (b : Bool) (k : String) (o : Option Value)
    → ((x : Value) → o ≡ some x → redact_inside x ≡ x)
    → (if b then mapped o (λ x. text redacted) else mapped o (redact_value k))
      ≡ (if b || str_eq k "password" then mapped o (λ x. text redacted) else o)
unfolding redact_value
shows true k o flat = refl
shows false k none flat = ground arith
shows false k (some x) flat = elim (Bool-cases (str_eq k "password")) [
  | inl e ↦ rw e refl
  | inr e ↦ rw e (ap some (flat x refl))
]

not_password :
    (ks : List String) (k : String)
    → is_among ks "password" ≡ true
    → is_among ks k ≡ false
    → str_eq k "password" ≡ false
not_password ks k p e = elim (Bool-cases (str_eq k "password")) [
  | inl same ↦
      let eq = ap (is_among ks) ((eq_iff k "password").0 same) in absurd_bool (sym p ∙ sym eq ∙ e)
  | inr other ↦ other
]
  where
    absurd_bool : true ≡ false → str_eq k "password" ≡ false
    absurd_bool x = cc

-- In a redacted vehicle each secret field and a field called "password" hold the placeholder, and every
-- other field is as it was. Its import over the same vehicle gives back every field. The conditions are
-- that its module counts "password" among the secrets and "type" not, and that no object in its fields
-- holds a password.
pub de_redact_vehicle-redact_vehicle :
    (secrets_of : String → List String) (v : Fields) (k : String)
    → is_among (keys_of secrets_of v) "password" ≡ true
    → is_among (keys_of secrets_of v) "type" ≡ false
    → IsFlat v
    → (get (redact_vehicle secrets_of v) k ≡ (
        if is_among (keys_of secrets_of v) k || str_eq k "password"
        then mapped (get v k) (λ x. text redacted)
        else get v k))
      × (get (de_redact_vehicle secrets_of v (redact_vehicle secrets_of v)) k ≡ get v k)
unfolding de_redact_vehicle
de_redact_vehicle-redact_vehicle secrets_of v k p t flat = (
  get-redact_vehicle secrets_of v k
      ∙ shows (is_among (keys_of secrets_of v) k) k (get v k) (flat k),
  get-restore_keys _ v (redact_vehicle secrets_of v) k
      ∙ rw (import_keys, get-redact_vehicle secrets_of v k)
          (comes_back (is_among (keys_of secrets_of v) k) k (get v k)
            (not_password (keys_of secrets_of v) k p) (flat k)),
)
  where
    type_stays :
        get (redact_vehicle secrets_of v) "type" ≡ mapped (get v "type") (redact_value "type")
    type_stays = get-redact_vehicle secrets_of v "type" ∙ rw t refl

    import_keys :
        secret_vehicle_keys secrets_of
          (coalesce (get (redact_vehicle secrets_of v) "type") (get v "type"))
        ≡ keys_of secrets_of v
    import_keys =
        ap (λ o. secret_vehicle_keys secrets_of (coalesce o (get v "type"))) type_stays
        ∙ keys_on_import secrets_of (get v "type")

pub All-IsFlat : (v : Fields) → All (λ e. redact_inside e.1 ≡ e.1) v → IsFlat v
unfolding get
All-IsFlat [] h k x e = cc
All-IsFlat ((j, y) ∷ v) h k x e = elim (Bool-cases (str_eq j k)) [
  | inl f ↦ let eq = some-injective _ _ (rw f at e) in ap redact_inside (sym eq) ∙ h.0 ∙ eq
  | inr f ↦ All-IsFlat v h.1 k x (rw f at e)
]
