-- ===== src/Health/Tests.antt =====
-- Health at concrete inputs.
use open_smart_charge.Base.{◌≡◌, refl, none, some, [], ◌∷◌}
use open_smart_charge.Base.Dict.{put, remove}
use open_smart_charge.Health.{
  ok, degraded, BackoffCfg, backoff_delay, SourceInput, update_health, remove_health,
  get_health_summary,
}

abbrev polls : BackoffCfg
polls = record { base = 30_000; factor = 2; longest = 600_000 }

third_failure : backoff_delay 3 polls ≡ 120_000
unfolding backoff_delay
third_failure = refl

abbrev daily : SourceInput
daily = record {
  failures = 0;
  hard_down = none;
  age = none;
  stale_after = some 90_000;
  degrade_after = none;
  unavailable_after = none;
}

summary_of_two :
    get_health_summary
      (remove_health (update_health (update_health [] "tibber" degraded 5) "mqtt" ok 6) "mqtt")
    ≡ (("tibber", degraded) ∷ [])
unfolding get_health_summary update_health remove_health put remove
summary_of_two = refl
