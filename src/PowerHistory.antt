-- ===== src/PowerHistory.antt =====
-- src/core/power-history.ts: the rolling buffer of whole-house power, oldest sample first.
pub mod Window
mod Tests
use open_smart_charge.Base.Int.{ℤ}
use open_smart_charge.Base.{
  ℕ, ◌+◌, Bool, false, Option, none, some, List, [], ◌∷◌, ◌++◌, ltb, if◌then◌else◌,
}

pub record PowerSample : Type 0 where
  pub t : ℕ
  pub total : ℤ
  pub ev : ℕ

abbrev pub window : ℕ
window = 900_000

abbrev pub min_interval : ℕ
min_interval = 10_000

-- `buf[buf.length - 1]`.
unfoldable pub last_sample : List PowerSample → Option PowerSample
last_sample [] = none
last_sample (x ∷ []) = some x
last_sample (x ∷ y ∷ xs) = last_sample (y ∷ xs)

unfoldable pub is_throttled : Option PowerSample → ℕ → Bool
is_throttled none now = false
is_throttled (some s) now = ltb now (s.t + min_interval)

-- The loop that shifts the oldest samples out.
unfoldable pub prune : ℕ → List PowerSample → List PowerSample
prune now [] = []
prune now (s ∷ buf) = let rest = prune now buf in if ltb (s.t + window) now then rest else s ∷ buf

unfoldable pub push_power_sample : List PowerSample → ℤ → ℕ → ℕ → List PowerSample
push_power_sample buf total ev now =
    if is_throttled (last_sample buf) now
    then buf
    else prune now (buf ++ (record { t = now; total = total; ev = ev } ∷ []))
