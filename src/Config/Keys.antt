-- ===== src/Config/Keys.antt =====
-- The keys of overrides in src/core/config-overrides.ts: kinds, and rows of one key.
use open_smart_charge.Base.{
  ℕ, ◌==◌, ==_iff, and_parts, ◌≡◌, refl, sym, ap, ◌∙◌, true, String, arith, if◌then◌else◌, str_eq,
  eq_iff,
}
use open_smart_charge.Config.{
  Config, OverrideKind, OverrideRow, singleton, entity, SingletonKind, EntityKind, same_kind,
  index_of, is_key, in_base,
}

kind_at : ℕ → OverrideKind
kind_at n =
    if n == 0
    then singleton SingletonKind.site
    else if n == 1
    then singleton SingletonKind.smart_charging
    else if n == 2
    then singleton SingletonKind.mqtt_bridge
    else if n == 3
    then entity EntityKind.tariff
    else if n == 4
    then entity EntityKind.balancer
    else if n == 5
    then entity EntityKind.vehicle
    else if n == 6
    then entity EntityKind.charger
    else if n == 7
    then entity EntityKind.meter_reader
    else entity EntityKind.loadpoint

kind_at-index_of : (k : OverrideKind) → kind_at (index_of k) ≡ k
unfolding kind_at
kind_at-index_of (singleton SingletonKind.site) = refl
kind_at-index_of (singleton SingletonKind.smart_charging) = refl
kind_at-index_of (singleton SingletonKind.mqtt_bridge) = refl
kind_at-index_of (entity EntityKind.tariff) = refl
kind_at-index_of (entity EntityKind.balancer) = refl
kind_at-index_of (entity EntityKind.vehicle) = refl
kind_at-index_of (entity EntityKind.charger) = refl
kind_at-index_of (entity EntityKind.meter_reader) = refl
kind_at-index_of (entity EntityKind.loadpoint) = refl

pub same_kind_eq : (j k : OverrideKind) → same_kind j k ≡ true → j ≡ k
unfolding same_kind
same_kind_eq j k h =
    sym (kind_at-index_of j)
    ∙ ap kind_at ((==_iff (index_of j) (index_of k)).0 h)
    ∙ kind_at-index_of k

abbrev entity_of : OverrideKind → EntityKind
entity_of (singleton k) = EntityKind.tariff
entity_of (entity k) = k

pub same_entity_eq : (j k : EntityKind) → same_kind (entity j) (entity k) ≡ true → j ≡ k
same_entity_eq j k h = ap entity_of (same_kind_eq (entity j) (entity k) h)

-- Rows of one key are both in the file or both not.
pub in_base_key :
    (base : Config) (k : OverrideKind) (n : String) (r : OverrideRow)
    → is_key k n r ≡ true
    → in_base base r.kind r.name ≡ in_base base k n
unfolding is_key
in_base_key base k n r h =
    let (e, f) = and_parts (same_kind r.kind k) (str_eq r.name n) h in
    rw (same_kind_eq r.kind k e, (eq_iff r.name n).0 f) refl

pub key_sym : (r q : OverrideRow) → is_key q.kind q.name r ≡ is_key r.kind r.name q
unfolding is_key same_kind
key_sym r q = ground (arith, eq_iff r.name q.name, eq_iff q.name r.name)

pub key_refl : (r : OverrideRow) → is_key r.kind r.name r ≡ true
unfolding is_key same_kind
key_refl r = ground (arith, (eq_iff r.name r.name).1)

pub same_kind_refl : (k : OverrideKind) → same_kind k k ≡ true
unfolding same_kind
same_kind_refl k = (==_iff (index_of k) (index_of k)).1 refl
