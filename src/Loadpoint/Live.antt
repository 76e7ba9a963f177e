-- ===== src/Loadpoint/Live.antt =====
-- What the live fields show after a history of status frames.
use open_smart_charge.Base.{ℕ, ◌≡◌, refl, Option, List, [], ◌∷◌, get_or_else, if◌then◌else◌}
use open_smart_charge.Charger.{ChargerStatus}
use open_smart_charge.Loadpoint.{LiveFields, fold_charger_status}

-- The fields after the frames, the newest first.
unfoldable pub after : LiveFields → List ChargerStatus → LiveFields
after start [] = start
after start (s ∷ older) = fold_charger_status (after start older) s

-- The newest reading in the run of charging frames at the front; zero if the run ends in a frame that
-- does not charge, and the first value if it goes back to the start.
abbrev pub reading : (ChargerStatus → Option ℕ) → ℕ → List ChargerStatus → ℕ
reading f first [] = first
reading f first (s ∷ older) = if s.charging then get_or_else (f s) (reading f first older) else 0

-- The newest value that any frame reports.
abbrev pub newest : (ChargerStatus → Option ℕ) → ℕ → List ChargerStatus → ℕ
newest f first [] = first
newest f first (s ∷ older) = get_or_else (f s) (newest f first older)

-- After any history of frames the shown current and power are the newest readings since the session
-- last stopped drawing, zero if the newest frame does not charge, and the shown session energy is the
-- newest that any frame reported.
pub after_shows :
    (start : LiveFields) (frames : List ChargerStatus)
    → ((after start frames).current_a ≡ reading (λ s. s.current_a) start.current_a frames)
      × ((after start frames).power_w ≡ reading (λ s. s.power_w) start.power_w frames)
      × ((after start frames).session_energy
          ≡ newest (λ s. s.session_energy) start.session_energy frames)
unfolding after fold_charger_status
after_shows start [] = (refl, refl, refl)
after_shows start (s ∷ older) =
    let (a, b, c) = after_shows start older in (rw a refl, rw b refl, rw c refl)
