-- ===== src/Health/Laws.antt =====
-- Backoff grows to its ceiling, health never improves with failures or age, and the summary shows the
-- last update of each module.
use native.Mathlib.Nat.{pow-zero, pow-suc, mul_assoc}
use open_smart_charge.Base.{
  ℕ, zero, suc, ◌*◌, ◌^◌, min, ◌≤◌, ◌<◌, ◌≡◌, refl, none, some, String, [], ◌∷◌, arith,
  if◌then◌else◌, str_eq,
}
use open_smart_charge.Base.Dict.{get, put, remove, get-put, get-remove}
use open_smart_charge.Health.{
  Health, ok, degraded, unavailable, BackoffCfg, backoff_delay, SourceInput, source_health,
  HealthMap, HealthEntry, update_health, remove_health, get_health_summary,
}

-- The delay never falls with one more failure, and never exceeds the ceiling; the first failure waits
-- the base delay, if that is below the ceiling.
pub backoff_delay_grows :
    (n : ℕ) (cfg : BackoffCfg)
    → 1 ≤ cfg.factor
    → (backoff_delay n cfg ≤ backoff_delay (suc n) cfg)
      × (backoff_delay n cfg ≤ cfg.longest)
      × (backoff_delay 1 cfg ≡ min cfg.base cfg.longest)
unfolding backoff_delay
backoff_delay_grows n cfg h = (grows n, capped n, rw pow-zero (omega arith))
  where
    step : (p : ℕ) → p ≤ p * cfg.factor
    step p = grind arith

    grows : (k : ℕ) → backoff_delay k cfg ≤ backoff_delay (suc k) cfg
    grows zero = omega arith
    grows (suc k) = rw (pow-suc cfg.factor k) (
        omega
          (arith, step (cfg.base * cfg.factor ^ k), mul_assoc cfg.base (cfg.factor ^ k) cfg.factor))

    capped : (k : ℕ) → backoff_delay k cfg ≤ cfg.longest
    capped zero = omega arith
    capped (suc k) = omega arith

-- 0 is well, 2 is worst.
abbrev pub severity : Health → ℕ
severity ok = 0
severity degraded = 1
severity unavailable = 2

abbrev at : SourceInput → ℕ → ℕ → SourceInput
at i failures age = record i { failures = failures; age = some age }

-- A source does not get healthier by failing more often or by its last success growing older, and it
-- is never `ok` once that is older than the limit.
pub source_health_mono :
    (i : SourceInput) (f f' age age' : ℕ)
    → f ≤ f'
    → age ≤ age'
    → (severity (source_health (at i f age)) ≤ severity (source_health (at i f' age')))
      × ((limit : ℕ)
          → i.stale_after ≡ some limit
          → limit < age
          → 1 ≤ severity (source_health (at i f age)))
unfolding source_health
source_health_mono i f f' age age' h k = (ground arith, λ limit e l. ground arith)

get-summary :
    (m : HealthMap) (k : String)
    → get (get_health_summary m) k ≡ elim (get m k) [ none ↦ none | some e ↦ some e.health ]
unfolding get get_health_summary
get-summary [] k = refl
get-summary ((j, e) ∷ m) k = ground (arith, get-summary m k)

-- After an update the summary shows the module's new health and all others as before; after a removal
-- it does not show the module.
pub get-get_health_summary :
    (m : HealthMap) (id j : String) (h : Health) (now : ℕ)
    → (get (get_health_summary (update_health m id h now)) j
        ≡ (if str_eq id j then some h else get (get_health_summary m) j))
      × (get (get_health_summary (remove_health m id)) j
          ≡ (if str_eq id j then none else get (get_health_summary m) j))
unfolding update_health remove_health
get-get_health_summary m id j h now =
    let e : HealthEntry = record { id = id; health = h; checked_at = now } in
    (
      ground (arith, get-summary (put m id e) j, get-summary m j, get-put m id j e),
      ground (arith, get-summary (remove m id) j, get-summary m j, get-remove m id j),
    )
