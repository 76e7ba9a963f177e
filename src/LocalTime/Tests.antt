-- ===== src/LocalTime/Tests.antt =====
-- Local times at a concrete instant.
use open_smart_charge.Base.{ℕ, ◌+◌, ◌-◌, ◌*◌, ◌/◌, ◌%◌, ◌<◌, ◌≤◌, ◌≡◌, refl, arith}
use open_smart_charge.LocalTime.{local_parts, ms_until_local_time, day_length}
use open_smart_charge.LocalTime.Until.{ms_until_local_time-IsNext}

-- Two hours ahead of UTC.
abbrev summer : ℕ → ℕ
summer t = (t + 120 * 60_000 - 0 * 60_000) / 60_000 * 60_000

-- Thursday 1 August 2024, 15:20:30 UTC.
abbrev noon : ℕ
noon = 1_722_525_630_000

thursday : local_parts summer noon ≡ record { hour = 17; minute = 20; weekday = 3 }
unfolding local_parts
thursday = refl

tomorrow : ms_until_local_time summer noon 7 0 ≡ 49_170_000
unfolding ms_until_local_time
tomorrow = refl

-- Four hours behind UTC.
abbrev new_york : ℕ → ℕ
new_york t = (t + 0 * 60_000 - 240 * 60_000) / 60_000 * 60_000

ms_until_local_time-IsNext_example :
    let wait = ms_until_local_time new_york noon 7 0 in
    (0 < wait)
    × (wait ≤ day_length)
    × (new_york (noon + wait) % day_length ≡ 7 * 3_600_000 + 0 * 60_000)
ms_until_local_time-IsNext_example =
    ms_until_local_time-IsNext new_york 0 240 noon 7 0 (λ t. refl) (omega arith) (omega arith)
      (omega arith) (omega arith) (omega arith)
