-- ===== src/Balancer/Hysteresis.antt =====
-- The budget is kept where no loadpoint has a last commanded value, and the hysteresis alone breaks it.
use open_smart_charge.Base.{
  ℕ, ◌+◌, ◌*◌, ◌/◌, ◌≤◌, ◌≡◌, Bool, false, not, Option, none, some, String, List, [], ◌∷◌, arith,
  filter_by, All, All-filter_by, All-map, length, str_eq,
}
use open_smart_charge.Base.Dict.{put}
use open_smart_charge.Base.Int.{ℤ, pos, pos_part, ◌-ℤ◌, ◌+ℤ◌, min_ℤ, min_ℤ-le, -ℤ_parts, one_part}
use open_smart_charge.Balancer.{
  Snapshot, smart, settle, is_close, serve_fast, serve_smart, floor_share, set_all, allocate,
  zeroes, wants, is_fast,
}
use open_smart_charge.Balancer.Bounds.{total, smarts_of, split_total, floor_share_bound}

abbrev IsNew : Snapshot → Type 0
IsNew lp = lp.commanded_a ≡ none

settle_new : (prev : Option ℕ) (give : ℤ) → prev ≡ none → settle prev give ≤ pos_part give
unfolding settle
settle_new none give e = ground arith
settle_new (some p) give e = cc

serve_fast_new :
    (r : ℤ) (lps : List Snapshot)
    → All IsNew lps
    → let (served, rest) = serve_fast r lps in total served + pos_part rest ≤ pos_part r
unfolding total serve_fast
serve_fast_new r [] h = omega arith
serve_fast_new r (lp ∷ lps) h =
    let give = min_ℤ (pos lp.max_current_a) r in
    let final = settle lp.commanded_a give in
    omega (
      arith,
      serve_fast_new (r -ℤ pos final) lps h.1,
      settle_new lp.commanded_a give h.0,
      -ℤ_parts r (pos final),
      min_ℤ-le (pos lp.max_current_a) r,
      one_part r,
      one_part give,
      one_part (r -ℤ pos final),
    )

serve_smart_new :
    (share : ℤ) (lps : List Snapshot)
    → All IsNew lps
    → total (serve_smart share lps) ≤ length lps * pos_part share
unfolding total serve_smart
serve_smart_new share [] h = omega arith
serve_smart_new share (lp ∷ lps) h =
    let give = min_ℤ share (pos lp.max_current_a) in
    omega (
      arith,
      serve_smart_new share lps h.1,
      settle_new lp.commanded_a give h.0,
      min_ℤ-le share (pos lp.max_current_a),
      one_part share,
      one_part give,
    )

filter-IsNew :
    (q : Snapshot → Bool) (lps : List Snapshot) → All IsNew lps → All IsNew (filter_by q lps)
filter-IsNew q lps h = All-map _ IsNew (filter_by q lps) (λ lp p. p.0) (All-filter_by IsNew q lps h)

-- If no loadpoint was commanded before, the allocations stay within the budget.
pub allocate_new :
    (lps : List Snapshot) (budget : ℤ)
    → All IsNew lps
    → total (allocate lps budget) ≤ pos_part budget
allocate_new lps budget h =
    let wanting = filter_by wants lps in
    let kept = filter-IsNew wants lps h in
    let fasts = serve_fast budget (filter_by is_fast wanting) in
    let n = length (smarts_of lps) in
    omega (
      arith,
      split_total lps budget,
      serve_fast_new budget (filter_by is_fast wanting) (filter-IsNew is_fast wanting kept),
      serve_smart_new (floor_share fasts.1 n) (smarts_of lps)
          (filter-IsNew (λ lp. not (is_fast lp)) wanting kept),
      floor_share_bound fasts.1 n,
    )

abbrev pub holding : String → ℕ → Snapshot
holding name a = record {
  id = name;
  mode = smart;
  commanded_a = some a;
  max_current_a = a;
  should_charge_now = none;
  target_reached = none;
  pause_on_target = none;
}

-- A share of `amps` whole amps does not move a loadpoint that was commanded one more.
kept :
    (amps : ℕ)
    → 5 ≤ amps
    → settle
        (some (amps * 1000 + 1000))
        (min_ℤ (pos (2 * (amps * 1000) / 2000 * 1000)) (pos (amps * 1000 + 1000)))
      ≡ amps * 1000 + 1000
unfolding settle is_close min_ℤ ◌+ℤ◌
kept amps h = ground arith

-- Two smart loadpoints that were given one amp more than their new share, for a share of `amps` whole
-- amps, keep what they have: the circuit is told to draw 2 A more than its budget.
pub allocate_overdraws :
    (j k : String) (amps : ℕ)
    → str_eq j k ≡ false
    → 5 ≤ amps
    → total (
        allocate
          (holding j (amps * 1000 + 1000) ∷ holding k (amps * 1000 + 1000) ∷ [])
          (pos (2 * (amps * 1000))))
      ≡ 2 * (amps * 1000) + 2000
unfolding allocate total serve_fast serve_smart floor_share wants set_all put zeroes
allocate_overdraws j k amps ne h = rw (ne, kept amps h) (omega arith)
