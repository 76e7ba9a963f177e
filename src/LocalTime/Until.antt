-- ===== src/LocalTime/Until.antt =====
-- The time until a local time of day, src/sdk/local-time.ts, in a zone without a shift of its clock.
use open_smart_charge.Base.{
  ℕ, ◌+◌, ◌-◌, ◌*◌, ◌/◌, ◌%◌, ◌≤◌, ◌<◌, ◌≡◌, inl, inr, ◌∙◌, ap, arith, ltb, ltb→lt, Bool-cases,
}
use open_smart_charge.LocalTime.{day_length, ms_until_local_time}

aligned :
    (m ahead behind : ℕ)
    → behind ≤ m
    → (m * 60_000 + ahead * 60_000 - behind * 60_000) / 60_000 * 60_000
      ≡ m * 60_000 + ahead * 60_000 - behind * 60_000
aligned m ahead behind h = omega arith

time_of_day : (d tod : ℕ) → tod < day_length → (d * day_length + tod) % day_length ≡ tod
time_of_day d tod h = omega arith

-- In a zone that is a whole number of minutes, at most a day, ahead of UTC or behind it, with no shift of
-- its clock, the wait until a time of day, asked three days or more after the epoch, is positive and at most a day, and at its end the local time is that time of day.
pub ms_until_local_time-IsNext :
    (wall : ℕ → ℕ) (ahead behind now hour minute : ℕ)
    → ((t : ℕ) → wall t ≡ (t + ahead * 60_000 - behind * 60_000) / 60_000 * 60_000)
    → ahead ≤ 1_440
    → behind ≤ 1_440
    → 259_200_000 ≤ now
    → hour < 24
    → minute < 60
    → let wait = ms_until_local_time wall now hour minute in
      (0 < wait)
      × (wait ≤ day_length)
      × (wall (now + wait) % day_length ≡ hour * 3_600_000 + minute * 60_000)
unfolding ms_until_local_time
ms_until_local_time-IsNext wall ahead behind now hour minute zone ha hb hn hh hm =
    let d = wall now / day_length in
    let tod = hour * 3_600_000 + minute * 60_000 in
    let m = d * 1_440 + hour * 60 + minute in
    let fake = d * day_length + hour * 3_600_000 + minute * 60_000 in
    let as_minutes : fake ≡ m * 60_000 = omega arith in
    let a = zone now in
    let early : behind ≤ m = omega arith in
    let at_fake : wall fake ≡ fake + ahead * 60_000 - behind * 60_000 =
      zone fake ∙ rw as_minutes (aligned m ahead behind early) in
    let target = fake + fake - wall fake in
    let back : target + ahead * 60_000 ≡ fake + behind * 60_000 = omega arith in
    elim (Bool-cases (ltb now target)) [
      | inl e ↦
          let late = ltb→lt now target e in
          let there : now + (target - now) ≡ target = omega arith in
          let read : wall target ≡ d * day_length + tod = zone target ∙ omega arith in
          rw e (
            omega arith,
            omega arith,
            ap (λ t. wall t % day_length) there
                ∙ ap (λ t. t % day_length) read
                ∙ time_of_day d tod (omega arith),
          )
      | inr e ↦
          let past : target ≤ now = ground arith in
          let there : now + (target + day_length - now) ≡ target + day_length = omega arith in
          let read : wall (target + day_length) ≡ (d + 1) * day_length + tod =
            zone (target + day_length) ∙ omega arith in
          rw e (
            omega arith,
            omega arith,
            ap (λ t. wall t % day_length) there
                ∙ ap (λ t. t % day_length) read
                ∙ time_of_day (d + 1) tod (omega arith),
          )
    ]
