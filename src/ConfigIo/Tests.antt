-- ===== src/ConfigIo/Tests.antt =====
-- The redaction of a concrete vehicle, after config-io.test.ts.
use open_smart_charge.Base.{some, String, List, [], ◌∷◌, ◌≡◌, refl, str_eq, if◌then◌else◌, ◌||◌}
use open_smart_charge.Base.Dict.{get, update, mapped}
use open_smart_charge.Config.{text, nested, Fields}
use open_smart_charge.ConfigIo.{
  redacted, redact_texts, redact_inside, redact_value, redact_passwords, or_password,
  secret_vehicle_keys, redact_keys, redact_vehicle, is_redacted, restore_keys, coalesce,
  de_redact_vehicle,
}
use open_smart_charge.ConfigIo.RoundTrip.{
  is_among, keys_of, All-IsFlat, de_redact_vehicle-redact_vehicle,
}

abbrev secrets_of : String → List String
secrets_of t = if str_eq t "skoda" then "password" ∷ "pin" ∷ [] else []

abbrev enyaq : Fields
enyaq =
    ("name", text "enyaq")
    ∷ ("type", text "skoda")
    ∷ ("password", text "hunter2")
    ∷ ("pin", text "1234")
    ∷ []

-- A broker's password inside a vehicle is redacted, and not restored.
abbrev with_broker : Fields
with_broker = ("type", text "skoda") ∷ ("broker", nested (("password", "s3cret") ∷ [])) ∷ []

broker_is_clobbered :
    get (de_redact_vehicle secrets_of with_broker (redact_vehicle secrets_of with_broker)) "broker"
    ≡ some (nested (("password", redacted) ∷ []))
unfolding get de_redact_vehicle redact_vehicle redact_passwords redact_value redact_inside
    redact_texts secret_vehicle_keys or_password redact_keys restore_keys is_redacted coalesce
    update
broker_is_clobbered = refl

keys : keys_of secrets_of enyaq ≡ "password" ∷ "pin" ∷ []
unfolding get secret_vehicle_keys or_password
keys = refl

de_redact_vehicle-redact_vehicle_example :
    (get (redact_vehicle secrets_of enyaq) "pin" ≡ (
      if is_among (keys_of secrets_of enyaq) "pin" || str_eq "pin" "password"
      then mapped (get enyaq "pin") (λ x. text redacted)
      else get enyaq "pin"))
    × (get (de_redact_vehicle secrets_of enyaq (redact_vehicle secrets_of enyaq)) "pin"
        ≡ get enyaq "pin")
unfolding get secret_vehicle_keys or_password redact_inside
de_redact_vehicle-redact_vehicle_example =
    de_redact_vehicle-redact_vehicle secrets_of enyaq "pin" refl refl
      (All-IsFlat enyaq (refl, (refl, (refl, (refl, tt)))))
