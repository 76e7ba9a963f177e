-- ===== src/Ocpp/Debounce.antt =====
-- src/modules/charger-ocpp16/debounce.ts: the setter that limits the rate of current writes. Times are
-- in ms, values in mA. Both reads of the clock in one run of the code give the same time.
pub mod Spacing
mod Tests
use open_smart_charge.Base.{
  ℕ, ◌+◌, ◌≤◌, ◌<◌, ◌≡◌, Bool, true, false, ◌||◌, Option, none, some, List, [], ◌∷◌, leb, ◌==◌,
  get_or_else, if◌then◌else◌,
}

-- What the closure keeps. `due` is `pendingScheduled`, with the time for which the trailing write was
-- scheduled; a missing `last_write_at` is the initial `-Infinity`.
pub record Setter : Type 0 where
  pub last_written : Option ℕ
  pub last_write_at : Option ℕ
  pub pending_value : Option ℕ
  pub due : Option ℕ

abbrev pub created : Setter
created = record { last_written = none; last_write_at = none; pending_value = none; due = none }

abbrev pub is_value : Option ℕ → ℕ → Bool
is_value none v = false
is_value (some w) v = w == v

-- `elapsed >= minIntervalMs`
abbrev pub has_waited : ℕ → Option ℕ → ℕ → Bool
has_waited interval none now = true
has_waited interval (some t) now = leb (t + interval) now

-- A call of the setter: its new state, and the value that it writes at once. The delay
-- `minIntervalMs - elapsed` ends one interval after the last write.
unfoldable pub set : ℕ → Setter → ℕ → ℕ → Setter × Option ℕ
set interval s now value =
    if is_value s.last_written value
    then (s, none)
    else if has_waited interval s.last_write_at now
    then (record s { last_written = some value; last_write_at = some now }, some value)
    else (
      record s {
        pending_value = some value;
        due = some (get_or_else s.due (get_or_else s.last_write_at 0 + interval));
      },
      none,
    )

abbrev write_pending : Option ℕ → Setter → ℕ → Setter × Option ℕ
write_pending none s now = (record s { due = none }, none)
write_pending (some final) s now =
    if is_value s.last_written final
    then (record s { due = none; pending_value = none }, none)
    else (
      record {
        last_written = some final;
        last_write_at = some now;
        pending_value = none;
        due = none;
      },
      some final,
    )

-- The scheduled function, when its timer runs.
unfoldable pub fire : Setter → ℕ → Setter × Option ℕ
fire s now = write_pending s.pending_value s now

-- A write at its time, before the older ones.
abbrev pub logged : Option ℕ → ℕ → List (ℕ × ℕ) → List (ℕ × ℕ)
logged none now log = log
logged (some v) now log = (now, v) ∷ log

-- The runs of a setter: its state, the time of the last event, and the writes so far, the newest
-- first. A timer runs no earlier than the time it was scheduled for, and calls may come before it even
-- when that time has passed.
pub data Run (interval : ℕ) : Setter → ℕ → List (ℕ × ℕ) → Type 0 where
  start : Run interval created 0 []
  call :
      (s : Setter) (t : ℕ) (log : List (ℕ × ℕ)) (now value : ℕ)
      → Run interval s t log
      → t ≤ now
      → Run interval (set interval s now value).0 now (logged (set interval s now value).1 now log)
  timer :
      (s : Setter) (t : ℕ) (log : List (ℕ × ℕ)) (now d : ℕ)
      → Run interval s t log
      → t ≤ now
      → s.due ≡ some d
      → d ≤ now
      → Run interval (fire s now).0 now (logged (fire s now).1 now log)
