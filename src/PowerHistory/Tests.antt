-- ===== src/PowerHistory/Tests.antt =====
-- Runs of the buffer on concrete readings, after power-history.test.ts.
use open_smart_charge.Base.{ℕ, ◌≡◌, refl, [], ◌∷◌}
use open_smart_charge.Base.Int.{pos, negsuc}
use open_smart_charge.PowerHistory.{
  PowerSample, last_sample, is_throttled, push_power_sample, prune,
}

abbrev at : ℕ → PowerSample
at t = record { t = t; total = negsuc 999; ev = 1_000 }

throttled : push_power_sample (at 1_000 ∷ []) (pos 0) 0 5_000 ≡ at 1_000 ∷ []
unfolding push_power_sample last_sample is_throttled
throttled = refl

pruned :
    push_power_sample (at 1_000 ∷ at 11_000 ∷ []) (negsuc 999) 1_000 905_000
    ≡ at 11_000 ∷ at 905_000 ∷ []
unfolding push_power_sample prune last_sample is_throttled
pruned = refl
