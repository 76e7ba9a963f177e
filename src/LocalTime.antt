-- ===== src/LocalTime.antt =====
-- src/sdk/local-time.ts. What `Intl` says of an instant in the site's time zone is a parameter of the
-- code that uses it; `wall t` is the local time at `t` read as UTC, in whole minutes.
pub mod Until
mod Tests
use open_smart_charge.Base.{ℕ, ◌+◌, ◌-◌, ◌*◌, ◌/◌, ◌%◌, Bool, ◌&&◌, ◌||◌, ltb, leb, if◌then◌else◌}

-- The parts of a local time that the core reads.
pub record LocalParts : Type 0 where
  pub hour : ℕ
  pub minute : ℕ
  pub weekday : ℕ

-- `isNight`, at a local hour.
unfoldable pub is_night : ℕ → ℕ → ℕ → Bool
is_night h start_hour end_hour =
    if leb start_hour end_hour
    then leb start_hour h && ltb h end_hour
    else leb start_hour h || ltb h end_hour

abbrev pub day_length : ℕ
day_length = 86_400_000

-- `localParts`; 1 January 1970 was a Thursday.
unfoldable pub local_parts : (ℕ → ℕ) → ℕ → LocalParts
local_parts wall t = record {
  hour = wall t / 3_600_000 % 24;
  minute = wall t / 60_000 % 60;
  weekday = (wall t / day_length + 3) % 7;
}

abbrev pub local_hour : (ℕ → ℕ) → ℕ → ℕ
local_hour wall t = (local_parts wall t).hour

-- `fakeUTC` plus the offset there, `fakeUTC - wall fakeUTC`; a local time lies less than that from UTC.
unfoldable pub ms_until_local_time : (ℕ → ℕ) → ℕ → ℕ → ℕ → ℕ
ms_until_local_time wall now hour minute =
    let fake = wall now / day_length * day_length + hour * 3_600_000 + minute * 60_000 in
    let target = fake + fake - wall fake in
    if ltb now target then target - now else target + day_length - now

unfoldable pub ms_until_local_midnight : (ℕ → ℕ) → ℕ → ℕ
ms_until_local_midnight wall now = ms_until_local_time wall now 0 0
