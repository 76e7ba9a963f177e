-- ===== src/Session/Tests.antt =====
-- Runs of the reconciler at concrete inputs, among them one instance of each theorem.
use open_smart_charge.Base.{
  ℕ, ◌+◌, ◌≤◌, ◌≡◌, ◌≢◌, refl, true, false, none, some, List, [], ◌∷◌, arith, length,
}
use open_smart_charge.Charger.{suspended_ev}
use open_smart_charge.Session.{
  nothing, resume, Input, State, session_reconcile, idle_state, decide_session, base_state, act_on,
  ends_episode, is_away, choose_action, ladder_of, phase_of, session_open,
}
use open_smart_charge.Session.Guards.{IsStalled, decide_session_acts_iff}
use open_smart_charge.Session.Actuators.{Actuators}
use open_smart_charge.Session.Episode.{
  action_times, state_after, IsSpaced, episode_bounded, stall_is_answered,
}

-- A car that holds a session and draws nothing, seen at a time.
abbrev latched : ℕ → Input
latched t = record {
  wants_charge = true;
  status = some suspended_ev;
  drawing_a = 0;
  car_plugged_in = none;
  car_charging = none;
  car_at_target = none;
  session_complete = some false;
  vehicle_can_actuate = true;
  charger_can_remote_start = true;
  charger_can_clear_profile = true;
  charger_can_reset = true;
  now = t;
}

abbrev waited : State
waited = record idle_state { stalled_since = some 1000; phase = some session_open }

resumes_after_grace : (decide_session waited (latched 91_000) session_reconcile).action ≡ resume
unfolding decide_session base_state act_on ends_episode is_away choose_action phase_of
resumes_after_grace = refl

latched-IsStalled : (t : ℕ) → IsStalled session_reconcile (latched t)
latched-IsStalled t = ground arith

decide_session_acts_iff_example :
    (decide_session waited (latched 91_000) session_reconcile).action ≢ nothing
unfolding ladder_of phase_of
decide_session_acts_iff_example =
    (decide_session_acts_iff session_reconcile waited (latched 91_000)).1
      (latched-IsStalled 91_000, ground arith, λ e. cc)

abbrev ticks : List Input
ticks = latched 1000 ∷ latched 31_000 ∷ latched 91_000 ∷ latched 121_000 ∷ latched 271_000 ∷ []

acts_twice : action_times session_reconcile idle_state ticks ≡ 91_000 ∷ 271_000 ∷ []
unfolding action_times decide_session base_state act_on ends_episode is_away choose_action phase_of
acts_twice = refl

episode_bounded_example :
    (0 + length (action_times session_reconcile idle_state ticks) ≤ 6)
    × IsSpaced 180_000 none (action_times session_reconcile idle_state ticks)
unfolding ends_episode
episode_bounded_example =
    episode_bounded session_reconcile idle_state ticks (omega arith) (ground arith)

stall_is_answered_example :
    let d =
      decide_session
        (state_after session_reconcile idle_state (latched 1000 ∷ latched 31_000 ∷ []))
        (latched 91_000)
        session_reconcile in
    (d.action ≡ choose_action (latched 91_000) session_open 0) × (d.action ≢ nothing)
unfolding phase_of
stall_is_answered_example =
    stall_is_answered session_reconcile (latched 1000) (latched 31_000 ∷ []) (latched 91_000)
      (omega arith) (omega arith) (latched-IsStalled 1000)
      ((latched-IsStalled 31_000, omega arith), tt) (latched-IsStalled 91_000) (omega arith)
      (unfold ladder_of in λ e. cc)

abbrev everything : Actuators
everything = record {
  has_remote_start = true;
  has_remote_stop = true;
  has_clear_profile = true;
  has_reset = true;
  has_start_charging = true;
  reassert_limit = 16_000;
}
