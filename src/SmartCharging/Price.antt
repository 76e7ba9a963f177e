-- ===== src/SmartCharging/Price.antt =====
-- src/core/smart-charging/price.ts: the curve of prices that the planner works on. `process_wall` is the
-- clock of the process's own zone, in which `setMinutes` counts, and `local_hour` the hour of an instant
-- in the site's zone, as `Intl` says.
use open_smart_charge.Base.{
  ℕ, zero, suc, ◌+◌, ◌-◌, ◌*◌, ◌/◌, ◌%◌, ◌≤◌, ◌<◌, ◌≡◌, ◌≢◌, ◌⊎◌, ◌↔◌, ==_iff, refl, ◌∙◌, ap, sym,
  subst, Bool, true, false, ◌&&◌, Option, none, some, List, [], ◌∷◌, arith, ltb, ltb→lt, leb, ◌==◌,
  get_or_else, if◌then◌else◌, find_by, Bool-cases, inl, inr,
}
use open_smart_charge.Base.Int.{ℤ, pos}
use open_smart_charge.LocalTime.{is_night}
use open_smart_charge.Planner.{TariffSlot, with_price}

pub data PriceRung : Type 0 where
  live_tariff historical_avg static_night : PriceRung

pub record Resolved : Type 0 where
  pub value : List TariffSlot
  pub source : PriceRung
  pub is_degraded : Bool

pub record PriceInputs : Type 0 where
  pub live_prices : Option (List TariffSlot)
  -- The average price of each hour of the day that the history has.
  pub historical_avg : Option (List (ℕ × ℤ))
  pub now : ℕ
  pub process_wall : ℕ → ℕ
  pub target_time : ℕ
  pub night_start : ℕ
  pub night_end : ℕ
  pub local_hour : ℕ → ℕ
  pub night_price : Option ℤ
  pub day_price : Option ℤ

-- 3600 seconds.
abbrev pub hour : ℕ
hour = 3_600_000

-- `cursor.setMinutes(0, 0, 0)`: the top of the hour of `now`, in a zone that does not shift within it.
abbrev pub hour_top : PriceInputs → ℕ
hour_top i = i.now - i.process_wall i.now % hour

-- The loop of `buildHourlyCurve`, on fuel.
unfoldable pub curve_from : (ℕ → ℤ) → ℕ → ℕ → ℕ → List TariffSlot
curve_from price_at zero cursor to = []
curve_from price_at (suc f) cursor to =
    let rest = curve_from price_at f (cursor + hour) to in
    if ltb cursor to
    then record { start = cursor; stop = cursor + hour; price = price_at cursor } ∷ rest
    else []

unfoldable pub build_hourly_curve : ℕ → ℕ → (ℕ → ℤ) → List TariffSlot
build_hourly_curve top to price_at = curve_from price_at ((to - top) / hour + 1) top to

abbrev average_of : Option (ℕ × ℤ) → Option ℤ
average_of none = none
average_of (some e) = some e.1

abbrev pub avg_price : PriceInputs → List (ℕ × ℤ) → ℕ → ℤ
avg_price i history start =
    get_or_else (average_of (find_by (λ e. e.0 == i.local_hour start) history))
      (get_or_else i.day_price (pos 2))

abbrev pub night_curve_price : PriceInputs → ℕ → ℤ
night_curve_price i start =
    if is_night (i.local_hour start) i.night_start i.night_end
    then get_or_else i.night_price (pos 1)
    else get_or_else i.day_price (pos 2)

-- A list that is there and not empty.
abbrev pub non_empty : {A : Type 0} → Option (List A) → Option (List A)
non_empty none = none
non_empty (some []) = none
non_empty (some (x ∷ xs)) = some (x ∷ xs)

-- The ladder, on the live prices and the history where they have an entry.
unfoldable pub price_ladder :
    PriceInputs → Option (List TariffSlot) → Option (List (ℕ × ℤ)) → Resolved
price_ladder i (some prices) history = record {
  value = prices;
  source = live_tariff;
  is_degraded = false;
}
price_ladder i none (some history) = record {
  value = build_hourly_curve (hour_top i) i.target_time (avg_price i history);
  source = historical_avg;
  is_degraded = true;
}
price_ladder i none none = record {
  value = build_hourly_curve (hour_top i) i.target_time (night_curve_price i);
  source = static_night;
  is_degraded = true;
}

unfoldable pub resolve_price_curve : PriceInputs → Resolved
resolve_price_curve i = price_ladder i (non_empty i.live_prices) (non_empty i.historical_avg)

-- The price that the planner finds at `t` is that of the hour of the curve around `t`, a whole number of
-- hours after `top`.
abbrev pub IsPriced : ℕ → (ℕ → ℤ → Type 0) → List TariffSlot → ℕ → Type 0
IsPriced top Price curve t =
    (s : ℕ) × (k : ℕ) × (s ≡ top + k * hour)
    × (s ≤ t)
    × (t < s + hour)
    × (p : ℤ) × Price s p
    × ((with_price curve (record { start = t; stop = t })).price ≡ some p)

curve_from-IsPriced :
    (Price : ℕ → ℤ → Type 0) (price_at : ℕ → ℤ) (f top k cursor to t : ℕ)
    → ((s : ℕ) → Price s (price_at s))
    → cursor ≡ top + k * hour
    → to ≤ cursor + f * hour
    → cursor ≤ t
    → t < to
    → IsPriced top Price (curve_from price_at f cursor to) t
unfolding curve_from with_price
curve_from-IsPriced Price price_at zero top k cursor to t right e h l u = absurd (omega arith)
curve_from-IsPriced Price price_at (suc f) top k cursor to t right e h l u =
    let inside : ltb cursor to ≡ true = ground arith in
    elim (Bool-cases (ltb t (cursor + hour))) [
      | inl here ↦
          let found : (leb cursor t && ltb t (cursor + hour)) ≡ true = ground arith in
          (
            cursor,
            k,
            e,
            l,
            ltb→lt t (cursor + hour) here,
            price_at cursor,
            right cursor,
            rw (inside, found) refl,
          )
      | inr later ↦
          let missed : (leb cursor t && ltb t (cursor + hour)) ≡ false = ground arith in
          let (s, n, at, below, above, p, is, priced) =
            curve_from-IsPriced Price price_at f top (k + 1) (cursor + hour) to t right
              (omega (arith, e)) (omega arith) (ground arith) u in
          (s, n, at, below, above, p, is, rw (inside, missed) priced)
    ]

-- The hour lies in the night window, which may wrap over midnight.
abbrev pub IsNightHour : ℕ → ℕ → ℕ → Type 0
IsNightHour h from to =
    ((from ≤ to) × (from ≤ h) × (h < to)) ⊎ ((to < from) × ((from ≤ h) ⊎ (h < to)))

-- The first average that a history has for an hour, or none.
abbrev pub Average : ℕ → List (ℕ × ℤ) → Option ℤ → Type 0
Average h [] o = o ≡ none
Average h (e ∷ es) o = ((e.0 ≡ h) × (o ≡ some e.1)) ⊎ ((e.0 ≢ h) × Average h es o)

-- What an hour of the day costs: the average of the history, and the day price, or 2, where that has none;
-- with no history the night price, or 1, in the night window, and the day price outside.
abbrev pub Costs : PriceInputs → Option (List (ℕ × ℤ)) → ℕ → ℤ → Type 0
Costs i (some history) s p =
    (o : Option ℤ) × Average (i.local_hour s) history o
    × (p ≡ get_or_else o (get_or_else i.day_price (pos 2)))
Costs i none s p =
    (IsNightHour (i.local_hour s) i.night_start i.night_end → p ≡ get_or_else i.night_price (pos 1))
    × ((IsNightHour (i.local_hour s) i.night_start i.night_end → ⊥)
        → p ≡ get_or_else i.day_price (pos 2))

find-Average :
    (h : ℕ) (history : List (ℕ × ℤ))
    → Average h history (average_of (find_by (λ e. e.0 == h) history))
find-Average h [] = refl
find-Average h (e ∷ es) = elim (Bool-cases (e.0 == h)) [
  | inl here ↦ rw here (inl ((==_iff e.0 h).0 here, refl))
  | inr other ↦ rw other (inr (ground (arith, other), find-Average h es))
]

is_night-IsNightHour : (h from to : ℕ) → (is_night h from to ≡ true) ↔ IsNightHour h from to
unfolding is_night
is_night-IsNightHour h from to = (λ e. ground (arith, e), λ n. ground (arith, n))

avg_price-Costs :
    (i : PriceInputs) (history : List (ℕ × ℤ)) (s : ℕ)
    → Costs i (some history) s (avg_price i history s)
avg_price-Costs i history s = (_, find-Average (i.local_hour s) history, refl)

night_curve_price-Costs : (i : PriceInputs) (s : ℕ) → Costs i none s (night_curve_price i s)
night_curve_price-Costs i s =
    let both = is_night-IsNightHour (i.local_hour s) i.night_start i.night_end in
    elim (Bool-cases (is_night (i.local_hour s) i.night_start i.night_end)) [
      | inl night ↦ rw night (λ n. refl, λ by_day. absurd (by_day (both.0 night)))
      | inr day ↦ rw day (λ n. absurd (let e = both.1 n in cc), λ by_day. refl)
    ]

build_hourly_curve-IsPriced :
    (Price : ℕ → ℤ → Type 0) (top to : ℕ) (price_at : ℕ → ℤ) (t : ℕ)
    → ((s : ℕ) → Price s (price_at s))
    → top ≤ t
    → t < to
    → IsPriced top Price (build_hourly_curve top to price_at) t
unfolding build_hourly_curve
build_hourly_curve-IsPriced Price top to price_at t right l u =
    curve_from-IsPriced Price price_at ((to - top) / hour + 1) top 0 top to t right (omega arith)
      (omega arith) l u

price_ladder-IsPriced :
    (i : PriceInputs) (history : Option (List (ℕ × ℤ))) (t : ℕ)
    → hour_top i ≤ t
    → t < i.target_time
    → IsPriced (hour_top i) (Costs i history) (price_ladder i none history).value t
unfolding price_ladder
price_ladder-IsPriced i none t l u =
    build_hourly_curve-IsPriced (Costs i none) (hour_top i) i.target_time (night_curve_price i) t
      (night_curve_price-Costs i) l u
price_ladder-IsPriced i (some history) t l u =
    build_hourly_curve-IsPriced (Costs i (some history)) (hour_top i) i.target_time
      (avg_price i history) t (avg_price-Costs i history) l u

price_ladder-live :
    (i : PriceInputs) (prices : List TariffSlot) (history : Option (List (ℕ × ℤ)))
    → (price_ladder i (some prices) history).value ≡ prices
unfolding price_ladder
price_ladder-live i prices history = refl

-- Live prices are passed on as they are, if there are any. Without them every instant from the top of
-- this hour to the target time has a price for the planner: it is that of the hour around it, counted
-- from this hour's top, and costs what the local hour of the day at that hour's start does: the average
-- that the history has for it, or the day price where it has none; with no history the night price in
-- the night window and the day price outside.
pub resolve_price_curve-IsPriced :
    (i : PriceInputs) (t : ℕ)
    → hour_top i ≤ t
    → t < i.target_time
    → ((prices : List TariffSlot)
        → non_empty i.live_prices ≡ some prices
        → (resolve_price_curve i).value ≡ prices)
      × (non_empty i.live_prices ≡ none
          → IsPriced
              (hour_top i)
              (Costs i (non_empty i.historical_avg))
              (resolve_price_curve i).value
              t)
unfolding resolve_price_curve
resolve_price_curve-IsPriced i t l u = (
  λ prices e.
      ap (λ o. (price_ladder i o (non_empty i.historical_avg)).value) e
      ∙ price_ladder-live i prices (non_empty i.historical_avg),
  λ e.
      subst
        (λ o.
          IsPriced (hour_top i) (Costs i (non_empty i.historical_avg))
            (price_ladder i o (non_empty i.historical_avg)).value t)
        (sym e) (price_ladder-IsPriced i (non_empty i.historical_avg) t l u),
)
