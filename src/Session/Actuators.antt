-- ===== src/Session/Actuators.antt =====
-- `executeSessionAction`: the commands that one action sends, and the failures that it logs. Whether a
-- command fails is the hardware's choice, so it is an argument.
use open_smart_charge.Base.{
  ℕ, ◌≡◌, refl, Bool, true, false, List, [], ◌∷◌, ◌++◌, arith, if◌then◌else◌,
}
use open_smart_charge.Session.{
  Action, nothing, remote_start, resume, wake_car, clear_profile, reset, Input,
}
use open_smart_charge.Session.Ladder.{CanPull}

pub data Command : Type 0 where
  send_remote_start send_remote_stop send_start_charging send_clear_profile send_hard_reset :
      Command
  send_current_limit : ℕ → Command

pub data Event : Type 0 where
  sent : Command → Event
  warned : Command → Event

-- Which optional methods the handles have. `setCurrentLimit` is not optional.
pub record Actuators : Type 0 where
  pub has_remote_start : Bool
  pub has_remote_stop : Bool
  pub has_clear_profile : Bool
  pub has_reset : Bool
  pub has_start_charging : Bool
  pub reassert_limit : ℕ

-- `await f?.().catch((err) => log.warn(…))`
abbrev attempt : (Command → Bool) → Bool → Command → List Event
attempt fails false c = []
attempt fails true c = sent c ∷ (if fails c then warned c ∷ [] else [])

-- `await f?.().catch(() => {})`
abbrev attempt_quietly : Bool → Command → List Event
attempt_quietly false c = []
attempt_quietly true c = sent c ∷ []

pub execute_session_action : (Command → Bool) → Action → Actuators → List Event
execute_session_action fails remote_start act = attempt fails act.has_remote_start send_remote_start
execute_session_action fails resume act =
    attempt_quietly act.has_remote_stop send_remote_stop
    ++ attempt fails act.has_remote_start send_remote_start
execute_session_action fails wake_car act = attempt fails act.has_start_charging send_start_charging
execute_session_action fails clear_profile act =
    attempt fails act.has_clear_profile send_clear_profile
    ++ attempt fails true (send_current_limit act.reassert_limit)
execute_session_action fails reset act = attempt fails act.has_reset send_hard_reset
execute_session_action fails nothing act = []

-- The commands among the events.
abbrev pub commands : List Event → List Command
commands [] = []
commands (sent c ∷ es) = c ∷ commands es
commands (warned c ∷ es) = commands es

-- The handles offer what the input says of them, and can stop a session if they can start one.
pub record Fits (i : Input) (act : Actuators) : Type 0 where
  pub start : act.has_remote_start ≡ i.charger_can_remote_start
  pub stop : act.has_remote_stop ≡ i.charger_can_remote_start
  pub clear : act.has_clear_profile ≡ i.charger_can_clear_profile
  pub cold : act.has_reset ≡ i.charger_can_reset
  pub wake : act.has_start_charging ≡ i.vehicle_can_actuate

-- The plan of an action.
abbrev pub intended : Action → ℕ → List Command
intended nothing limit = []
intended remote_start limit = send_remote_start ∷ []
intended resume limit = send_remote_stop ∷ send_remote_start ∷ []
intended wake_car limit = send_start_charging ∷ []
intended clear_profile limit = send_clear_profile ∷ send_current_limit limit ∷ []
intended reset limit = send_hard_reset ∷ []

-- An action that the hardware can pull is carried out in full, whichever of its commands fail: a
-- failed stop does not keep `resume` from starting, and a failed clear does not keep the limit from
-- being asserted again.
pub execute_session_action_complete :
    (fails : Command → Bool) (i : Input) (act : Actuators) (a : Action)
    → Fits i act
    → CanPull i a
    → commands (execute_session_action fails a act) ≡ intended a act.reassert_limit
unfolding execute_session_action
execute_session_action_complete fails i act nothing f h = refl
execute_session_action_complete fails i act remote_start f h = ground arith
execute_session_action_complete fails i act resume f h = ground arith
execute_session_action_complete fails i act wake_car f h = ground arith
execute_session_action_complete fails i act clear_profile f h = ground arith
execute_session_action_complete fails i act reset f h = ground arith
