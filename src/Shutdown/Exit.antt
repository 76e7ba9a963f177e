-- ===== src/Shutdown/Exit.antt =====
-- How the process ends after a signal.
use open_smart_charge.Base.{ℕ, ◌+◌, ◌≤◌, ◌≡◌, ◌⊎◌, Bool, true, Option, none, some}
use open_smart_charge.Shutdown.{
  Ending, returned, pending, threw, Cause, with_code, killed, Process, running_at, on_signal,
  is_due,
}

-- Why a process exits whose teardown began at `b` and comes out as `how` says, by the time `t`.
abbrev pub IsReason : ℕ → Ending → ℕ → ℕ → Cause → Type 0
IsReason timeout how b t e =
    ((e ≡ with_code 0) × ((how ≡ returned) ⊎ (how ≡ pending)))
    ⊎ (((e ≡ with_code 1) × ((how ≡ threw) ⊎ (b + timeout ≤ t))) ⊎ (e ≡ killed))

-- The states that a process passes through, whose teardown begins at `b`.
data IsTimed (timeout : ℕ) (how : Ending) : Process → Type 0 where
  at_rest : (t : ℕ) → IsTimed timeout how (running_at t)
  in_teardown :
      (i j : Bool) (b t : ℕ)
      → b ≤ t
      → IsTimed timeout how (record {
        now = t;
        on_sigint = i;
        on_sigterm = j;
        shutting_down = true;
        watchdog = some (b + timeout);
        began = some b;
        exited = none;
      })
  gone :
      (i j : Bool) (b t : ℕ) (w : Option ℕ) (e : Cause)
      → b ≤ t
      → IsReason timeout how b t e
      → IsTimed timeout how (record {
        now = t;
        on_sigint = i;
        on_sigterm = j;
        shutting_down = true;
        watchdog = w;
        began = some b;
        exited = some e;
      })

-- What a process shows once its teardown has begun.
abbrev pub IsGuarded : ℕ → Ending → Process → Type 0
IsGuarded timeout how p =
    (b : ℕ) × (p.began ≡ some b)
    × (on_signal timeout p ≡ p)
    × (p.exited ≡ none → b + timeout ≤ p.now → is_due p.watchdog p.now ≡ true)
    × ((e : Cause) → p.exited ≡ some e → IsReason timeout how b p.now e)
