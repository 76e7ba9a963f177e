-- ===== src/Lifecycle/Meter/Rollup.antt =====
-- What the house remembers of the snapshots.
use open_smart_charge.Base.{
  ℕ, ◌+◌, ◌-◌, ◌*◌, ◌/◌, ◌≤◌, ◌≡◌, refl, sym, ◌∙◌, ap, subst, Bool, Bool-cases, inl, inr, Option,
  none, some, List, [], ◌∷◌, ltb, length, arith, String, All, if◌then◌else◌,
}
use open_smart_charge.Base.Int.{ℤ, pos}
use open_smart_charge.Health.{HealthMap}
use open_smart_charge.PowerHistory.{PowerSample}
use open_smart_charge.PowerHistory.Window.{IsWindow, push-IsWindow, length-IsWindow}
use open_smart_charge.SmartCharging.Rollup.{
  LoadRow, Samples, load_of, larger, highest, is_within, worst_case_load, worst_case_load-record,
  prune_unseen, larger_assoc,
}
use open_smart_charge.Lifecycle.Meter.{
  MeterSnapshot, Clock, House, Event, highest_phase, prune_daily, note_load, is_same_day,
  note_power, on_meter_snapshot, on_all, at_start, is_house, round_w, total_of, sum_of,
}

-- The load that a snapshot tells of.
abbrev pub load_of_snapshot : MeterSnapshot → Option ℤ
load_of_snapshot s = if ltb 0 (highest_phase s) then some (pos (highest_phase s)) else none

abbrev pub samples : Clock → List Event → Samples
samples c [] = []
samples c (e ∷ es) =
    (c.date_of e.snapshot.timestamp, c.hour_of e.snapshot.timestamp, load_of_snapshot e.snapshot)
    ∷ samples c es

-- A date is not before the date of a day earlier, however clocks are changed.
pub record IsCalendar (c : Clock) : Type 0 where
  pub onwards : (s t : ℕ) → s + 86_400_000 ≤ t → c.date_of s ≤ c.date_of t

abbrev pub first_day : Clock → ℕ → ℕ → ℕ
first_day c at historical_days = c.date_of (at + 86_400_000 - historical_days * 86_400_000)

none_is_least : (b : Bool) (o : Option ℕ) → o ≡ larger (if b then none else none) o
none_is_least b o = ground arith

module _ (c : Clock) (days hour at : ℕ) (cal : IsCalendar c)
    (old : (days + 4) * 86_400_000 ≤ at) where
  prune_daily-worst :
      (t : ℕ) (h : House)
      → t ≤ at
      → worst_case_load (prune_daily c days t h).rollup hour (first_day c at days)
        ≡ worst_case_load h.rollup hour (first_day c at days)
  unfolding prune_daily
  prune_daily-worst t h le = elim (Bool-cases (is_same_day h.pruned_on (c.date_of t))) [
    | inl e ↦ rw e refl
    | inr e ↦ rw e (
        prune_unseen h.rollup hour (first_day c at days) _ (
          cal.onwards (t - (days + 4) * 86_400_000) (at + 86_400_000 - days * 86_400_000)
            (omega (arith, le, old))))
  ]

  note_load-worst :
      (s : MeterSnapshot) (h : House)
      → s.timestamp ≤ at
      → worst_case_load (note_load c days s h).rollup hour (first_day c at days)
        ≡ larger
            (if is_within hour (first_day c at days) (c.date_of s.timestamp) (c.hour_of s.timestamp)
              then load_of (load_of_snapshot s)
              else none)
            (worst_case_load h.rollup hour (first_day c at days))
  unfolding note_load
  note_load-worst s h le = elim (Bool-cases (ltb 0 (highest_phase s))) [
    | inl e ↦ rw e (
        prune_daily-worst s.timestamp _ le
        ∙ worst_case_load-record (c.date_of s.timestamp) (c.hour_of s.timestamp)
            (some (pos (highest_phase s))) hour (first_day c at days) h.rollup)
    | inr e ↦ rw e (none_is_least _ _)
  ]

  on_all-worst :
      (house_meter : Option String) (es : List Event) (h : House)
      → All (λ e. e.snapshot.timestamp ≤ at) es
      → worst_case_load (on_all c days house_meter es h).rollup hour (first_day c at days)
        ≡ larger
            (highest (samples c es) hour (first_day c at days))
            (worst_case_load h.rollup hour (first_day c at days))
  unfolding on_all on_meter_snapshot
  on_all-worst house_meter [] h le = refl
  on_all-worst house_meter (e ∷ es) h le =
      on_all-worst house_meter es (on_meter_snapshot c days house_meter e h) le.1
      ∙ ap (larger (highest (samples c es) hour (first_day c at days)))
          (note_load-worst e.snapshot _ le.0)
      ∙ larger_assoc (highest (samples c es) hour (first_day c at days)) _ _

prune_daily-history :
    (c : Clock) (days t : ℕ) (h : House) → (prune_daily c days t h).power_history ≡ h.power_history
unfolding prune_daily
prune_daily-history c days t h = ground arith

note_load-history :
    (c : Clock) (days : ℕ) (s : MeterSnapshot) (h : House)
    → (note_load c days s h).power_history ≡ h.power_history
unfolding note_load
note_load-history c days s h = elim (Bool-cases (ltb 0 (highest_phase s))) [
  | inl e ↦ rw e (prune_daily-history c days s.timestamp _)
  | inr e ↦ rw e refl
]

note_power-IsWindow :
    (house_meter : Option String) (e : Event) (buf : List PowerSample)
    → IsWindow buf
    → IsWindow (note_power house_meter e buf)
unfolding note_power
note_power-IsWindow house_meter e buf w = elim (Bool-cases (is_house house_meter e.snapshot.name)) [
  | inl x ↦
      rw x
        (push-IsWindow buf
          (record {
            t = e.snapshot.timestamp;
            total = round_w (total_of e.snapshot);
            ev = (sum_of e.powers + 500) / 1000;
          })
          w).0
  | inr x ↦ rw x w
]

on_all-IsWindow :
    (c : Clock) (days : ℕ) (house_meter : Option String) (es : List Event) (h : House)
    → IsWindow h.power_history
    → IsWindow (on_all c days house_meter es h).power_history
unfolding on_all on_meter_snapshot
on_all-IsWindow c days house_meter [] h w = w
on_all-IsWindow c days house_meter (e ∷ es) h w =
    on_all-IsWindow c days house_meter es (on_meter_snapshot c days house_meter e h) (
      note_power-IsWindow house_meter e _
        (subst IsWindow (sym (note_load-history c days e.snapshot _)) w))

-- After any snapshots up to `at`, the daily pruning included, the worst load that is asked for at `at`
-- is the higher one of the highest load among those snapshots, in that hour of the day since the first day of the
-- window, and what the table said before them; the chart's samples are spaced, lie in their window and
-- are at most 91. The condition on clocks is that a date is not before the date of a day earlier; the
-- history must fit after the epoch.
pub on_meter_snapshots_refine :
    (c : Clock) (days hour at : ℕ) (house_meter : Option String) (es : List Event) (m : HealthMap)
    (rows : List LoadRow)
    → IsCalendar c
    → (days + 4) * 86_400_000 ≤ at
    → All (λ e. e.snapshot.timestamp ≤ at) es
    → let h = on_all c days house_meter es (at_start m rows) in
      (worst_case_load h.rollup hour (first_day c at days)
        ≡ larger
            (highest (samples c es) hour (first_day c at days))
            (worst_case_load rows hour (first_day c at days)))
      × IsWindow h.power_history
      × (length h.power_history ≤ 91)
on_meter_snapshots_refine c days hour at house_meter es m rows cal old le =
    let w = on_all-IsWindow c days house_meter es (at_start m rows) tt in
    (
      on_all-worst c days hour at cal old house_meter es (at_start m rows) le,
      w,
      length-IsWindow _ w,
    )
