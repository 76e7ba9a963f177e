-- ===== src/Health.antt =====
-- The health of a module: src/sdk/types.ts, the health map of src/core/health.ts, and the two
-- derivations of src/core/source-reconciler.ts. Times are in ms; the factor of the backoff is a whole
-- number.
pub mod Laws
mod Tests
use open_smart_charge.Base.{
  ℕ, zero, suc, ◌*◌, ◌^◌, min, Bool, true, false, ◌||◌, Option, none, some, String, List, [], ◌∷◌,
  ltb, leb, get_or_else, is_true, if◌then◌else◌, map,
}
use open_smart_charge.Base.Dict.{Dict, put, remove}

pub data Health : Type 0 where
  ok degraded unavailable : Health

abbrev pub is_ok : Health → Bool
is_ok ok = true
is_ok _ = false

pub record BackoffCfg : Type 0 where
  pub base : ℕ
  pub factor : ℕ
  pub longest : ℕ

unfoldable pub backoff_delay : ℕ → BackoffCfg → ℕ
backoff_delay zero cfg = 0
backoff_delay (suc n) cfg = min (cfg.base * cfg.factor ^ n) cfg.longest

pub record SourceInput : Type 0 where
  pub failures : ℕ
  pub hard_down : Option Bool
  pub age : Option ℕ
  pub stale_after : Option ℕ
  pub degrade_after : Option ℕ
  pub unavailable_after : Option ℕ

abbrev pub is_stale : Option ℕ → Option ℕ → Bool
is_stale (some age) (some limit) = ltb limit age
is_stale _ _ = false

unfoldable pub source_health : SourceInput → Health
source_health i =
    if is_true i.hard_down
    then unavailable
    else if leb (get_or_else i.unavailable_after 3) i.failures
    then unavailable
    else if is_stale i.age i.stale_after || leb (get_or_else i.degrade_after 1) i.failures
    then degraded
    else ok

pub record HealthEntry : Type 0 where
  pub id : String
  pub health : Health
  pub checked_at : ℕ

abbrev pub HealthMap : Type 0
HealthMap = Dict HealthEntry

-- The time of the check is an argument.
unfoldable pub update_health : HealthMap → String → Health → ℕ → HealthMap
update_health m id health now = put m id (record { id = id; health = health; checked_at = now })

unfoldable pub remove_health : HealthMap → String → HealthMap
remove_health m id = remove m id

unfoldable pub get_health_summary : HealthMap → Dict Health
get_health_summary m = map (λ e. (e.0, e.1.health)) m
