-- ===== src/Balancer.antt =====
-- src/modules/balancer-mqtt-circuit/allocator.ts: one circuit's current budget is split across its
-- loadpoints. Currents are in mA; what is left of a budget may fall below zero.
pub mod Bounds
pub mod Hysteresis
pub mod Range
mod Tests
use open_smart_charge.Base.{
  ℕ, suc, ◌+◌, ◌-◌, ◌*◌, ◌/◌, Bool, true, false, ◌&&◌, not, Option, none, some, String, List, [],
  ◌∷◌, get_or_else, is_true, is_false, if◌then◌else◌, length, filter_by,
}
use open_smart_charge.Base.Dict.{Dict, put}
use open_smart_charge.Base.Int.{ℤ, pos, negsuc, pos_part, ◌+ℤ◌, ◌-ℤ◌, leb_ℤ, ltb_ℤ, min_ℤ}

pub data Mode : Type 0 where
  disabled smart fast : Mode

-- The fields of `LoadpointSnapshot` that the allocator reads.
pub record Snapshot : Type 0 where
  pub id : String
  pub mode : Mode
  pub commanded_a : Option ℕ
  pub max_current_a : ℕ
  pub should_charge_now : Option Bool
  pub target_reached : Option Bool
  pub pause_on_target : Option Bool

abbrev pub ocpp_min_a : ℕ
ocpp_min_a = 6000

abbrev pub hysteresis_a : ℕ
hysteresis_a = 1000

abbrev mode_wants : Mode → Snapshot → Bool
mode_wants disabled lp = false
mode_wants smart lp = not (is_false lp.should_charge_now)
mode_wants fast lp = not (is_true lp.target_reached && is_true lp.pause_on_target)

unfoldable pub wants : Snapshot → Bool
wants lp = mode_wants lp.mode lp

abbrev is_fast_mode : Mode → Bool
is_fast_mode fast = true
is_fast_mode _ = false

abbrev pub is_fast : Snapshot → Bool
is_fast lp = is_fast_mode lp.mode

-- `Math.abs(give - prev) <= HYSTERESIS_A`
unfoldable pub is_close : ℤ → ℕ → Bool
is_close give prev =
    leb_ℤ give (pos (prev + hysteresis_a)) && leb_ℤ (pos prev) (give +ℤ pos hysteresis_a)

abbrev stable_prev : Option ℕ → ℤ → ℤ
stable_prev none give = give
stable_prev (some prev) give = if is_close give prev then pos prev else give

-- The last commanded value, if the new one is close to it, and zero below the minimum.
unfoldable pub settle : Option ℕ → ℤ → ℕ
settle prev give =
    let stable = stable_prev prev give in
    if ltb_ℤ stable (pos ocpp_min_a) then 0 else pos_part stable

-- The loop over the fast loadpoints: their allocations and what remains of the budget.
unfoldable pub serve_fast : ℤ → List Snapshot → Dict ℕ × ℤ
serve_fast remaining [] = ([], remaining)
serve_fast remaining (lp ∷ lps) =
    let final = settle lp.commanded_a (min_ℤ (pos lp.max_current_a) remaining) in
    let rest = serve_fast (remaining -ℤ pos final) lps in ((lp.id, final) ∷ rest.0, rest.1)

-- `Math.floor(remaining / n)`, in whole amps.
unfoldable pub floor_share : ℤ → ℕ → ℤ
floor_share (pos r) n = pos (r / (n * 1000) * 1000)
floor_share (negsuc r) n = negsuc (r / (n * 1000) * 1000 + 999)

unfoldable pub serve_smart : ℤ → List Snapshot → Dict ℕ
serve_smart share [] = []
serve_smart share (lp ∷ lps) =
    (lp.id, settle lp.commanded_a (min_ℤ share (pos lp.max_current_a))) ∷ serve_smart share lps

-- `result.set` for each of the entries in turn.
unfoldable pub set_all : Dict ℕ → List (String × ℕ) → Dict ℕ
set_all m [] = m
set_all m ((k, v) ∷ es) = set_all (put m k v) es

unfoldable pub zeroes : List Snapshot → List (String × ℕ)
zeroes [] = []
zeroes (lp ∷ lps) = if wants lp then zeroes lps else (lp.id, 0) ∷ zeroes lps

unfoldable pub allocate : List Snapshot → ℤ → Dict ℕ
allocate lps budget =
    let wanting = filter_by wants lps in
    let fasts = serve_fast budget (filter_by is_fast wanting) in
    let smarts = filter_by (λ lp. not (is_fast lp)) wanting in
    set_all (set_all (set_all [] (zeroes lps)) fasts.0)
      (serve_smart (floor_share fasts.1 (length smarts)) smarts)
