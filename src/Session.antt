-- ===== src/Session.antt =====
-- src/core/session-reconciler.ts: the controller that recovers a stalled charging session. Times are
-- ms epochs and currents mA. The text of a decision's log line (`reason`) is left out.
-- `now - t < d` is written `now < t + d`, which is the same for times of either order.
pub mod Actuators
pub mod Guards
pub mod Ladder
pub mod Episode
mod Tests
use open_smart_charge.Base.{
  ℕ, zero, suc, ◌+◌, ◌-◌, min, Bool, true, false, ◌&&◌, ◌||◌, not, Option, none, some, List, [],
  ◌∷◌, ◌++◌, ltb, leb, get_or_else, is_true, is_false, if◌then◌else◌, length, get_elem?,
}
use open_smart_charge.Charger.{
  Connector, available, charging, suspended_ev, suspended_evse, unavailable, faulted,
}

pub data Action : Type 0 where
  nothing remote_start resume wake_car clear_profile reset : Action

pub data Phase : Type 0 where
  no_session session_open in_fault : Phase

pub record State : Type 0 where
  pub stalled_since : Option ℕ
  pub last_action : Option ℕ
  pub phase_attempts : ℕ
  pub total_actions : ℕ
  pub phase : Option Phase

pub record Cfg : Type 0 where
  pub min_draw : ℕ
  pub grace : ℕ
  pub cooldown : ℕ
  pub max_actions : ℕ

-- `SESSION_RECONCILE`: 1 A, 90 s, 180 s, 6 actions.
abbrev pub session_reconcile : Cfg
session_reconcile = record { min_draw = 1000; grace = 90_000; cooldown = 180_000; max_actions = 6 }

pub record Input : Type 0 where
  pub wants_charge : Bool
  pub status : Option Connector
  pub drawing_a : ℕ
  pub car_plugged_in : Option Bool
  pub car_charging : Option Bool
  pub car_at_target : Option Bool
  pub session_complete : Option Bool
  pub vehicle_can_actuate : Bool
  pub charger_can_remote_start : Bool
  pub charger_can_clear_profile : Bool
  pub charger_can_reset : Bool
  pub now : ℕ

pub record Decision : Type 0 where
  pub action : Action
  pub next : State

abbrev pub idle_state : State
idle_state = record {
  stalled_since = none;
  last_action = none;
  phase_attempts = 0;
  total_actions = 0;
  phase = none;
}

-- `SESSION_OPEN`
unfoldable pub holds_session : Connector → Bool
holds_session charging = true
holds_session suspended_ev = true
holds_session suspended_evse = true
holds_session _ = false

abbrev is_faulted : Connector → Bool
is_faulted faulted = true
is_faulted _ = false

abbrev pub is_available : Connector → Bool
is_available available = true
is_available _ = false

abbrev pub is_unavailable : Connector → Bool
is_unavailable unavailable = true
is_unavailable _ = false

unfoldable pub phase_of : Option Connector → Phase
unfolding holds_session
phase_of none = no_session
phase_of (some s) =
    if holds_session s then session_open else if is_faulted s then in_fault else no_session

abbrev pub push_if : Bool → Action → List Action
push_if true a = a ∷ []
push_if false a = []

unfoldable pub ladder_of : Input → Phase → List Action
ladder_of i in_fault = push_if i.charger_can_reset reset
ladder_of i no_session =
    push_if i.charger_can_remote_start remote_start ++ push_if i.charger_can_reset reset
ladder_of i session_open =
    let wake = push_if i.vehicle_can_actuate wake_car in
    let again = push_if i.charger_can_remote_start resume in
    (if is_false i.car_charging then wake ++ again else again ++ wake)
    ++ (push_if i.charger_can_clear_profile clear_profile ++ push_if i.charger_can_reset reset)

unfoldable pub choose_action : Input → Phase → ℕ → Action
unfolding ladder_of
choose_action i phase attempt =
    let ladder = ladder_of i phase in
    get_or_else (get_elem? ladder (min attempt (length ladder - 1))) nothing

abbrev pub same_phase : Option Phase → Phase → Bool
same_phase (some no_session) no_session = true
same_phase (some session_open) session_open = true
same_phase (some in_fault) in_fault = true
same_phase _ _ = false

unfoldable pub is_drawing : Cfg → Input → Bool
is_drawing cfg i = leb cfg.min_draw i.drawing_a

abbrev pub on_status : (Connector → Bool) → Option Connector → Bool
on_status p none = false
on_status p (some s) = p s

unfoldable pub genuinely_idle : Input → Bool
genuinely_idle i = on_status is_available i.status && not (is_true i.car_plugged_in)

-- The test of the first early return: the episode is over.
unfoldable pub ends_episode : Cfg → Input → Bool
unfolding is_drawing genuinely_idle
ends_episode cfg i =
    not i.wants_charge
    || (is_drawing cfg i
        || (is_true i.car_charging
            || (is_true i.car_at_target || (is_true i.session_complete || genuinely_idle i))))

-- The test of the second early return: the charger is gone for now.
unfoldable pub is_away : Input → Bool
is_away i = elim i.status [ none ↦ true | some s ↦ is_unavailable s ]

abbrev pub is_nothing : Action → Bool
is_nothing nothing = true
is_nothing _ = false

abbrev pub before_until : Option ℕ → ℕ → ℕ → Bool
before_until none now d = false
before_until (some t) now d = ltb now (t + d)

-- What is remembered of a stall on which nothing is done.
unfoldable pub base_state : State → Input → State
unfolding phase_of
base_state s i =
    let phase = phase_of i.status in
    record s {
      stalled_since = some (get_or_else s.stalled_since i.now);
      phase_attempts = if same_phase s.phase phase then s.phase_attempts else 0;
      phase = some phase;
    }

unfoldable pub act_on : State → Input → Decision
act_on s i =
    let base = base_state s i in
    let phase = phase_of i.status in
    let action = choose_action i phase base.phase_attempts in
    if is_nothing action then record { action = action; next = base } else record {
      action = action;
      next = record {
        stalled_since = base.stalled_since;
        last_action = some i.now;
        phase_attempts = base.phase_attempts + 1;
        total_actions = s.total_actions + 1;
        phase = some phase;
      };
    }

unfoldable pub decide_session : State → Input → Cfg → Decision
decide_session s i cfg =
    if ends_episode cfg i
    then record { action = nothing; next = idle_state }
    else if is_away i
    then record { action = nothing; next = s }
    else let base = base_state s i in
      if ltb i.now (get_or_else s.stalled_since i.now + cfg.grace)
      then record { action = nothing; next = base }
      else if leb cfg.max_actions s.total_actions
      then record { action = nothing; next = base }
      else if before_until s.last_action i.now cfg.cooldown
      then record { action = nothing; next = base }
      else act_on s i
