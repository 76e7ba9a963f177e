-- ===== src/Ocpp/Debounce/Tests.antt =====
-- The debounced setter at concrete inputs.
use open_smart_charge.Base.{ℕ, ◌≡◌, ◌≢◌, ◌⊎◌, refl, true, false, some, [], ◌∷◌, arith}
use open_smart_charge.Ocpp.Debounce.{
  Setter, created, is_value, has_waited, set, fire, Run, start, call, timer,
}
use open_smart_charge.Ocpp.Debounce.Spacing.{
  IsPaced, IsAhead, Run-IsPaced, after_timer, set_request,
}

-- 10 A at once, then 16 A too early.
abbrev raised : Setter
raised = record {
  last_written = some 10_000;
  last_write_at = some 0;
  pending_value = some 16_000;
  due = some 10_000;
}

first_call :
    set 10_000 created 0 10_000
    ≡ (record created { last_written = some 10_000; last_write_at = some 0 }, some 10_000)
unfolding set
first_call = refl

raised-Run : Run 10_000 raised 500 ((0, 10_000) ∷ [])
unfolding set
raised-Run = call _ 0 _ 500 16_000 (call created 0 [] 0 10_000 start (omega arith)) (omega arith)

-- A call of 12 A comes before the overdue timer, which then writes the 16 A.
abbrev overtaken : Setter
overtaken = (fire (set 10_000 raised 10_001 12_000).0 10_002).0

overtaken-Run : Run 10_000 overtaken 10_002 ((10_002, 16_000) ∷ (10_001, 12_000) ∷ (0, 10_000) ∷ [])
unfolding set fire
overtaken-Run =
    timer _ 10_001 _ 10_002 10_000 (call raised 500 _ 10_001 12_000 raised-Run (omega arith))
      (omega arith) refl (omega arith)

Run-IsPaced_example : IsPaced 10_000 ((10_002, 16_000) ∷ (10_001, 12_000) ∷ (0, 10_000) ∷ [])
Run-IsPaced_example =
    Run-IsPaced 10_000 overtaken 10_002 ((10_002, 16_000) ∷ (10_001, 12_000) ∷ (0, 10_000) ∷ [])
      overtaken-Run

-- The limit goes back to 10 A before the timer: the charger is told 16 A.
set_request_example :
    (is_value (some 10_000) 10_000 ≡ false
      → IsAhead (some 10_000) 600
      → (after_timer (set 10_000 raised 600 10_000).0 10_000).last_written ≡ some 10_000)
    × ((u d : ℕ)
        → some 10_000 ≡ some d
        → some 16_000 ≡ some u
        → u ≢ 10_000
        → (is_value (some 10_000) 10_000 ≡ true) ⊎ (has_waited 10_000 (some 0) 600 ≡ true)
        → (after_timer (set 10_000 raised 600 10_000).0 10_000).last_written ≡ some u)
set_request_example = set_request 10_000 raised 500 ((0, 10_000) ∷ []) 600 10_000 10_000 raised-Run

raised_limit_stays :
    (after_timer (set 10_000 raised 600 10_000).0 10_000).last_written ≡ some 16_000
unfolding set fire
raised_limit_stays = refl
