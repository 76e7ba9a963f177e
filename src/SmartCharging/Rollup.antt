-- ===== src/SmartCharging/Rollup.antt =====
-- src/core/smart-charging/rollup.ts: the highest household load of each hour. A local date is the number
-- of its day, in the order of the text keys; `Intl` gives the date and the hour of a time. Loads are in
-- mA, and a sample that is not finite is missing.
use open_smart_charge.Base.{
  ℕ, max, ◌≤◌, ◌≡◌, refl, ◌∙◌, ap, Bool, ◌&&◌, Option, none, some, List, [], ◌∷◌, arith, leb, ◌==◌,
  ==_iff, if◌then◌else◌, filter_by, Bool-cases, inl, inr,
}
use open_smart_charge.Base.Int.{ℤ, pos, negsuc}

pub record LoadRow : Type 0 where
  pub date : ℕ
  pub hour : ℕ
  pub max_phase : ℕ

-- `INSERT … ON CONFLICT(date, hour) DO UPDATE SET max_phase_a = MAX(…)`
unfoldable pub upsert : ℕ → ℕ → ℕ → List LoadRow → List LoadRow
upsert date hour load [] = record { date = date; hour = hour; max_phase = load } ∷ []
upsert date hour load (r ∷ rs) =
    if (r.date == date) && (r.hour == hour)
    then record r { max_phase = max r.max_phase load } ∷ rs
    else r ∷ upsert date hour load rs

unfoldable pub record_household_load : List LoadRow → ℕ → ℕ → Option ℤ → List LoadRow
record_household_load rows date hour none = rows
record_household_load rows date hour (some (negsuc n)) = rows
record_household_load rows date hour (some (pos load)) = upsert date hour load rows

abbrev pub larger : Option ℕ → Option ℕ → Option ℕ
larger none b = b
larger (some a) none = some a
larger (some a) (some b) = some (max a b)

abbrev pub is_within : ℕ → ℕ → ℕ → ℕ → Bool
is_within hour earliest date h = (h == hour) && leb earliest date

-- `SELECT MAX(max_phase_a) … WHERE hour = ? AND date >= ?`, on the date of the first day.
unfoldable pub worst_case_load : List LoadRow → ℕ → ℕ → Option ℕ
worst_case_load [] hour earliest = none
worst_case_load (r ∷ rs) hour earliest =
    larger (if is_within hour earliest r.date r.hour then some r.max_phase else none)
      (worst_case_load rs hour earliest)

unfoldable pub prune_household_load : List LoadRow → ℕ → List LoadRow
prune_household_load rows cutoff = filter_by (λ r. leb cutoff r.date) rows

-- What was measured: the date, the hour and the sample.
abbrev pub Samples : Type 0
Samples = List (ℕ × ℕ × Option ℤ)

abbrev pub record_all : Samples → List LoadRow → List LoadRow
record_all [] rows = rows
record_all ((date, hour, x) ∷ xs) rows = record_all xs (record_household_load rows date hour x)

abbrev pub load_of : Option ℤ → Option ℕ
load_of (some (pos load)) = some load
load_of _ = none

-- The highest load among the samples themselves.
abbrev pub highest : Samples → ℕ → ℕ → Option ℕ
highest [] hour earliest = none
highest ((date, h, x) ∷ xs) hour earliest =
    larger (if is_within hour earliest date h then load_of x else none) (highest xs hour earliest)

larger_swap : (a b c : Option ℕ) → larger a (larger b c) ≡ larger b (larger a c)
larger_swap a b c = ground arith

worst_case_load-upsert :
    (date h load hour earliest : ℕ) (rows : List LoadRow)
    → worst_case_load (upsert date h load rows) hour earliest
      ≡ larger
          (if is_within hour earliest date h then some load else none)
          (worst_case_load rows hour earliest)
unfolding worst_case_load upsert
worst_case_load-upsert date h load hour earliest [] = refl
worst_case_load-upsert date h load hour earliest (r ∷ rs) =
    elim (Bool-cases ((r.date == date) && (r.hour == h))) [
      | inl same ↦ rw same (ground (arith, same, ==_iff r.date date, ==_iff r.hour h))
      | inr other ↦
          rw (other, worst_case_load-upsert date h load hour earliest rs)
            (larger_swap (if is_within hour earliest r.date r.hour then some r.max_phase else none)
              (if is_within hour earliest date h then some load else none)
              (worst_case_load rs hour earliest))
    ]

pub worst_case_load-record :
    (date h : ℕ) (x : Option ℤ) (hour earliest : ℕ) (rows : List LoadRow)
    → worst_case_load (record_household_load rows date h x) hour earliest
      ≡ larger
          (if is_within hour earliest date h then load_of x else none)
          (worst_case_load rows hour earliest)
unfolding record_household_load
worst_case_load-record date h none hour earliest rows = ground arith
worst_case_load-record date h (some (negsuc n)) hour earliest rows = ground arith
worst_case_load-record date h (some (pos load)) hour earliest rows =
    worst_case_load-upsert date h load hour earliest rows

pub larger_assoc : (a b c : Option ℕ) → larger a (larger b c) ≡ larger (larger b a) c
larger_assoc a b c = ground arith

worst_case_load-from :
    (xs : Samples) (rows : List LoadRow) (hour earliest : ℕ)
    → worst_case_load (record_all xs rows) hour earliest
      ≡ larger (highest xs hour earliest) (worst_case_load rows hour earliest)
worst_case_load-from [] rows hour earliest = refl
worst_case_load-from ((date, h, x) ∷ xs) rows hour earliest =
    worst_case_load-from xs (record_household_load rows date h x) hour earliest
    ∙ ap (larger (highest xs hour earliest)) (worst_case_load-record date h x hour earliest rows)
    ∙ larger_assoc (highest xs hour earliest)
        (if is_within hour earliest date h then load_of x else none)
        (worst_case_load rows hour earliest)

pub larger-none : (a : Option ℕ) → larger a none ≡ a
larger-none a = ground arith

pub prune_unseen :
    (rows : List LoadRow) (hour earliest cutoff : ℕ)
    → cutoff ≤ earliest
    → worst_case_load (prune_household_load rows cutoff) hour earliest
      ≡ worst_case_load rows hour earliest
unfolding worst_case_load prune_household_load
prune_unseen [] hour earliest cutoff h = refl
prune_unseen (r ∷ rs) hour earliest cutoff h =
    ground (arith, prune_unseen rs hour earliest cutoff h)

-- The worst load of an hour is the highest valid sample taken in that hour of the day since the first
-- day of the window, in whatever order the samples came, and is missing only if there is none. Pruning
-- rows from before the window does not change it.
pub worst_case_load-record_all :
    (xs : Samples) (hour earliest cutoff : ℕ) (rows : List LoadRow)
    → cutoff ≤ earliest
    → (worst_case_load (record_all xs []) hour earliest ≡ highest xs hour earliest)
      × (worst_case_load (prune_household_load rows cutoff) hour earliest
          ≡ worst_case_load rows hour earliest)
unfolding worst_case_load
worst_case_load-record_all xs hour earliest cutoff rows h = (
  worst_case_load-from xs [] hour earliest ∙ larger-none (highest xs hour earliest),
  prune_unseen rows hour earliest cutoff h,
)
