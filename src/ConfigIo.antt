-- ===== src/ConfigIo.antt =====
-- src/core/config-io.ts: the redaction of credentials in an export, and their restoration on an import, for
-- a vehicle, whose secret fields its module names (`secrets_of`; no names where no module is known).
-- A value holds objects one level deep, as the configuration does.
pub mod RoundTrip
mod Tests
use open_smart_charge.Base.{
  Option, none, some, String, List, [], ◌∷◌, Bool, true, false, str_eq, if◌then◌else◌,
}
use open_smart_charge.Base.Dict.{get, put, remove, update}
use open_smart_charge.Config.{Value, text, number, flag, null, nested, Fields}

abbrev pub redacted : String
redacted = "••••••"

unfoldable pub redact_texts : List (String × String) → List (String × String)
redact_texts [] = []
redact_texts ((k, s) ∷ fs) = (k, if str_eq k "password" then redacted else s) ∷ redact_texts fs

-- `redactPasswords` of a value that stands under another key.
unfoldable pub redact_inside : Value → Value
redact_inside (nested fs) = nested (redact_texts fs)
redact_inside (text s) = text s
redact_inside (number n) = number n
redact_inside (flag b) = flag b
redact_inside null = null

unfoldable pub redact_value : String → Value → Value
redact_value k v = if str_eq k "password" then text redacted else redact_inside v

unfoldable pub redact_passwords : Fields → Fields
redact_passwords [] = []
redact_passwords ((k, v) ∷ fs) = (k, redact_value k v) ∷ redact_passwords fs

unfoldable pub or_password : List String → List String
or_password [] = "password" ∷ []
or_password (k ∷ ks) = k ∷ ks

unfoldable pub secret_vehicle_keys : (String → List String) → Option Value → List String
secret_vehicle_keys secrets_of (some (text t)) = or_password (secrets_of t)
secret_vehicle_keys secrets_of _ = "password" ∷ []

unfoldable pub redact_keys : List String → Fields → Fields
redact_keys [] v = v
redact_keys (k ∷ ks) v = redact_keys ks (update v k (λ x. text redacted))

-- `redactSecrets` of a vehicle.
unfoldable pub redact_vehicle : (String → List String) → Fields → Fields
redact_vehicle secrets_of v =
    let out = redact_passwords v in
    redact_keys (secret_vehicle_keys secrets_of (get out "type")) out

unfoldable pub is_redacted : Option Value → Bool
is_redacted (some (text s)) = str_eq s redacted
is_redacted _ = false

-- `keep`: the real value where there is one.
unfoldable pub keep : Option Value → Fields → String → Fields
keep none v k = remove v k
keep (some real) v k = put v k real

unfoldable pub restore_keys : List String → Fields → Fields → Fields
restore_keys [] cur v = v
restore_keys (k ∷ ks) cur v =
    restore_keys ks cur (if is_redacted (get v k) then keep (get cur k) v k else v)

-- `a ?? b`
unfoldable pub coalesce : Option Value → Option Value → Option Value
coalesce none b = b
coalesce (some null) b = b
coalesce (some (text s)) b = some (text s)
coalesce (some (number n)) b = some (number n)
coalesce (some (flag f)) b = some (flag f)
coalesce (some (nested fs)) b = some (nested fs)

-- `deRedact` of a vehicle; `cur` is the current one of its name, or no fields.
unfoldable pub de_redact_vehicle : (String → List String) → Fields → Fields → Fields
de_redact_vehicle secrets_of cur v =
    restore_keys (secret_vehicle_keys secrets_of (coalesce (get v "type") (get cur "type"))) cur v
