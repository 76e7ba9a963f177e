-- ===== src/PostStartup/Tests.antt =====
-- Runs of the hooks, after post-startup.test.ts.
use open_smart_charge.Base.{ℕ, ◌≡◌, refl, Bool, true, false, [], ◌∷◌, ltb, str_eq, ◌||◌, filter_by}
use open_smart_charge.Health.{BackoffCfg, backoff_delay}
use open_smart_charge.PostStartup.{
  PostStartupModule, call, delay, gave_up, failed_of, rounds, run_post_startup,
}
use open_smart_charge.PostStartup.Rounds.{described, run_post_startup-described}

abbrev cfg : BackoffCfg
cfg = record { base = 30_000; factor = 2; longest = 300_000 }

abbrev wallbox : PostStartupModule
wallbox = record { id = "wallbox"; has_hook = true }

abbrev car : PostStartupModule
car = record { id = "car"; has_hook = true }

abbrev tariff : PostStartupModule
tariff = record { id = "tariff"; has_hook = false }

-- The car's hook succeeds at once, the wallbox's in the third round.
abbrev third_time : PostStartupModule → ℕ → Bool
third_time m attempt = str_eq m.id "car" || ltb 2 attempt

given_up_early :
    run_post_startup third_time cfg 2 (wallbox ∷ tariff ∷ car ∷ [])
    ≡ call 1 wallbox ∷ call 1 car ∷ delay 30_000 ∷ call 2 wallbox ∷ gave_up (wallbox ∷ []) ∷ []
unfolding run_post_startup rounds failed_of backoff_delay
given_up_early = refl

run_post_startup-described_example :
    run_post_startup third_time cfg 6 (wallbox ∷ tariff ∷ car ∷ [])
    ≡ described third_time cfg (filter_by (λ m. m.has_hook) (wallbox ∷ tariff ∷ car ∷ [])) 0 6
run_post_startup-described_example =
    run_post_startup-described third_time cfg 6 (wallbox ∷ tariff ∷ car ∷ [])
