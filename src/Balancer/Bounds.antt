-- ===== src/Balancer/Bounds.antt =====
-- How far the allocations may exceed the budget, and the range of each.
use native.Mathlib.Nat.{div-add-mod}
use open_smart_charge.Base.{
  ℕ, ◌+◌, ◌*◌, ◌≤◌, ◌≡◌, refl, ◌⊎◌, inl, inr, not, Option, none, some, String, List, [], ◌∷◌, arith,
  length, filter_by, max,
}
use open_smart_charge.Base.Dict.{Dict, put}
use open_smart_charge.Base.Int.{
  ℤ, pos, negsuc, pos_part, neg_part, ◌+ℤ◌, ◌-ℤ◌, ◌≤ℤ◌, min_ℤ, one_part, min_ℤ-le, +ℤ_parts,
  -ℤ_parts,
}
use open_smart_charge.Balancer.{
  Snapshot, ocpp_min_a, hysteresis_a, settle, is_close, serve_fast, serve_smart, floor_share,
  set_all, allocate, zeroes, wants, is_fast,
}

-- The sum of all allocations.
unfoldable pub total : Dict ℕ → ℕ
total [] = 0
total ((k, v) ∷ m) = v + total m

pub settle_bound :
    (prev : Option ℕ) (give : ℤ)
    → (settle prev give ≡ 0)
      ⊎ ((ocpp_min_a ≤ settle prev give) × (pos (settle prev give) ≤ℤ give +ℤ pos hysteresis_a))
unfolding settle is_close
settle_bound none give = ground (arith, +ℤ_parts give (pos 1000))
settle_bound (some p) give = ground (arith, +ℤ_parts give (pos 1000))

total-put : (m : Dict ℕ) (k : String) (v : ℕ) → total (put m k v) ≤ total m + v
unfolding total put
total-put [] k v = omega arith
total-put ((j, w) ∷ m) k v = ground (arith, total-put m k v)

total-set_all : (m : Dict ℕ) (es : List (String × ℕ)) → total (set_all m es) ≤ total m + total es
unfolding total set_all
total-set_all m [] = omega arith
total-set_all m ((k, v) ∷ es) = omega (arith, total-set_all (put m k v) es, total-put m k v)

total-zeroes : (lps : List Snapshot) → total (zeroes lps) ≡ 0
unfolding total zeroes
total-zeroes [] = refl
total-zeroes (lp ∷ lps) = ground (arith, total-zeroes lps)

-- What the fast loadpoints take comes out of the budget, and they take at most 1 A more than it is,
-- all together.
serve_fast_bound :
    (r : ℤ) (lps : List Snapshot)
    → let (served, rest) = serve_fast r lps in
      (total served + pos_part rest + neg_part r ≡ pos_part r + neg_part rest)
      × ((neg_part rest ≤ hysteresis_a) ⊎ (total served ≡ 0))
unfolding total serve_fast
serve_fast_bound r [] = (omega arith, inr refl)
serve_fast_bound r (lp ∷ lps) =
    let give = min_ℤ (pos lp.max_current_a) r in
    let final = settle lp.commanded_a give in
    let (e, h) = serve_fast_bound (r -ℤ pos final) lps in
    omega (
      arith,
      e,
      h,
      settle_bound lp.commanded_a give,
      +ℤ_parts give (pos hysteresis_a),
      -ℤ_parts r (pos final),
      min_ℤ-le (pos lp.max_current_a) r,
      one_part r,
      one_part (serve_fast (r -ℤ pos final) lps).1,
      one_part give,
    )

-- A smart loadpoint takes at most its share and 1 A.
serve_smart_bound :
    (share : ℤ) (lps : List Snapshot)
    → total (serve_smart share lps) ≤ length lps * (pos_part share + hysteresis_a)
unfolding total serve_smart
serve_smart_bound share [] = omega arith
serve_smart_bound share (lp ∷ lps) =
    let give = min_ℤ share (pos lp.max_current_a) in
    omega (
      arith,
      serve_smart_bound share lps,
      settle_bound lp.commanded_a give,
      +ℤ_parts give (pos hysteresis_a),
      min_ℤ-le share (pos lp.max_current_a),
    )

pub floor_share_bound : (r : ℤ) (n : ℕ) → n * pos_part (floor_share r n) ≤ pos_part r
unfolding floor_share
floor_share_bound (pos r) n = grind (arith, div-add-mod r (n * 1000))
floor_share_bound (negsuc r) n = omega arith

-- A share below zero gives nothing.
serve_smart_none :
    (share : ℤ) (lps : List Snapshot) → 1 ≤ neg_part share → total (serve_smart share lps) ≡ 0
unfolding total serve_smart
serve_smart_none share [] h = refl
serve_smart_none share (lp ∷ lps) h =
    let give = min_ℤ share (pos lp.max_current_a) in
    omega (
      arith,
      serve_smart_none share lps h,
      settle_bound lp.commanded_a give,
      +ℤ_parts give (pos hysteresis_a),
      min_ℤ-le share (pos lp.max_current_a),
      one_part share,
    )

pub floor_share_neg : (r : ℤ) (n : ℕ) → 1 ≤ neg_part r → 1 ≤ neg_part (floor_share r n)
unfolding floor_share
floor_share_neg (pos r) n h = absurd (omega arith)
floor_share_neg (negsuc r) n h = omega arith

abbrev pub smarts_of : List Snapshot → List Snapshot
smarts_of lps = filter_by (λ lp. not (is_fast lp)) (filter_by wants lps)

pub split_total :
    (lps : List Snapshot) (budget : ℤ)
    → let (served, rest) = serve_fast budget (filter_by is_fast (filter_by wants lps)) in
      total (allocate lps budget)
      ≤ total served
        + total (serve_smart (floor_share rest (length (smarts_of lps))) (smarts_of lps))
unfolding allocate
split_total lps budget =
    let (served, rest) = serve_fast budget (filter_by is_fast (filter_by wants lps)) in
    let shares = serve_smart (floor_share rest (length (smarts_of lps))) (smarts_of lps) in
    omega (
      arith,
      total-set_all (set_all (set_all [] (zeroes lps)) served) shares,
      total-set_all (set_all [] (zeroes lps)) served,
      total-set_all [] (zeroes lps),
      total-zeroes lps,
      total-nil,
    )
  where
    total-nil : total [] ≡ 0
    total-nil = unfold total in refl

-- The allocations of a circuit exceed its budget by at most the 1 A of the hysteresis for each smart
-- loadpoint that wants current, and by at most 1 A in all where there are only fast ones.
pub allocate_bound :
    (lps : List Snapshot) (budget : ℤ)
    → total (allocate lps budget) ≤ pos_part budget + hysteresis_a * max 1 (length (smarts_of lps))
allocate_bound lps budget =
    let (served, rest) = serve_fast budget (filter_by is_fast (filter_by wants lps)) in
    let n = length (smarts_of lps) in
    let (e, h) = serve_fast_bound budget (filter_by is_fast (filter_by wants lps)) in
    let share = floor_share rest n in
    elim (one_part rest) [
      | inl low ↦ ground (
        arith,
        e,
        h,
        low,
        split_total lps budget,
        serve_smart_none share (smarts_of lps),
        serve_smart_bound share (smarts_of lps),
        floor_share_neg rest n,
        floor_share_bound rest n,
      )
      | inr high ↦ ground (
        arith,
        e,
        h,
        high,
        split_total lps budget,
        serve_smart_bound share (smarts_of lps),
        floor_share_bound rest n,
      )
    ]
