-- ===== src/Session/Guards.antt =====
-- When `decideSession` acts, and what it leaves behind.
use open_smart_charge.Base.{
  ℕ, ◌+◌, ◌≤◌, ◌<◌, ◌≡◌, ◌≢◌, ◌↔◌, true, false, none, some, [], arith, get_or_else, sym, ap, ◌∙◌,
}
use open_smart_charge.Charger.{available, unavailable}
use open_smart_charge.Session.{
  nothing, Input, State, Cfg, ladder_of, choose_action, phase_of, base_state, act_on, ends_episode,
  is_away, decide_session, before_until,
}
use open_smart_charge.Session.Ladder.{choose_action-ne-nothing, choose_action-empty}

-- The car should charge and does not, by every signal there is.
pub record IsStalled (cfg : Cfg) (i : Input) : Type 0 where
  pub wants : i.wants_charge ≡ true
  pub not_drawing : i.drawing_a < cfg.min_draw
  pub not_charging : i.car_charging ≢ some true
  pub below_target : i.car_at_target ≢ some true
  pub unfinished : i.session_complete ≢ some true
  pub present : i.status ≡ some available → i.car_plugged_in ≡ some true
  pub reachable : (i.status ≢ none) × (i.status ≢ some unavailable)

-- The guards of time and number.
pub record IsDue (cfg : Cfg) (s : State) (now : ℕ) : Type 0 where
  pub grace_over : get_or_else s.stalled_since now + cfg.grace ≤ now
  pub below_cap : s.total_actions < cfg.max_actions
  pub cooled : before_until s.last_action now cfg.cooldown ≡ false

IsStalled-of_tests :
    (cfg : Cfg) (i : Input) → ends_episode cfg i ≡ false → is_away i ≡ false → IsStalled cfg i
unfolding ends_episode is_away
IsStalled-of_tests cfg i h k = record {
  wants = ground arith;
  not_drawing = ground arith;
  not_charging = ground arith;
  below_target = ground arith;
  unfinished = ground arith;
  present = ground arith;
  reachable = ground arith;
}

pub tests_of_stalled :
    (cfg : Cfg) (i : Input) → IsStalled cfg i → (ends_episode cfg i ≡ false) × (is_away i ≡ false)
unfolding ends_episode is_away
tests_of_stalled cfg i h = ground arith

pub decide_session-due :
    (cfg : Cfg) (s : State) (i : Input)
    → IsStalled cfg i
    → IsDue cfg s i.now
    → decide_session s i cfg ≡ act_on s i
unfolding decide_session
decide_session-due cfg s i st due = let (e, a) = tests_of_stalled cfg i st in ground arith

pub act_on-action :
    (s : State) (i : Input)
    → (act_on s i).action ≡ choose_action i (phase_of i.status) (base_state s i).phase_attempts
unfolding act_on
act_on-action s i = ground arith

decide_session_acting :
    (cfg : Cfg) (s : State) (i : Input)
    → (decide_session s i cfg).action ≢ nothing
    → (ends_episode cfg i ≡ false)
      × (is_away i ≡ false)
      × IsDue cfg s i.now
      × (decide_session s i cfg ≡ act_on s i)
unfolding decide_session
decide_session_acting cfg s i h = ground arith

-- `decideSession` acts exactly when the car is stalled by every signal (charge is wanted, no current
-- flows, the car does not say that it charges or is full, the session is not complete, the connector
-- is known, not `Unavailable`, and `Available` only if the car says that it is plugged), the grace
-- and the cooldown are over, fewer than `maxActions` actions were taken, and the ladder of the phase
-- has a lever.
pub decide_session_acts_iff :
    (cfg : Cfg) (s : State) (i : Input)
    → ((decide_session s i cfg).action ≢ nothing)
      ↔ (IsStalled cfg i × IsDue cfg s i.now × (ladder_of i (phase_of i.status) ≢ []))
decide_session_acts_iff cfg s i = (forth, back)
  where
    forth :
        (decide_session s i cfg).action ≢ nothing
        → IsStalled cfg i × IsDue cfg s i.now × (ladder_of i (phase_of i.status) ≢ [])
    forth h =
        let (e, a, due, eq) = decide_session_acting cfg s i h in
        (
          IsStalled-of_tests cfg i e a,
          due,
          λ empty. h (ap (λ d. d.action) eq ∙ act_on-action s i ∙ choose_action-empty i _ _ empty),
        )

    back :
        IsStalled cfg i × IsDue cfg s i.now × (ladder_of i (phase_of i.status) ≢ [])
        → (decide_session s i cfg).action ≢ nothing
    back (st, due, h) e =
        choose_action-ne-nothing i _ _ h (
          sym (act_on-action s i)
          ∙ sym (ap (λ d. d.action) (decide_session-due cfg s i st due))
          ∙ e)
