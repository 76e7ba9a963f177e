-- ===== src/Session/Episode.antt =====
-- Runs of `decideSession` over the observations of many control ticks.
use open_smart_charge.Base.{
  ℕ, ◌+◌, ◌≤◌, ◌<◌, ◌≡◌, ◌≢◌, refl, false, Option, none, some, List, [], ◌∷◌, arith, length, All,
  if◌then◌else◌, ◌∙◌, ap, sym,
}
use open_smart_charge.Session.{
  nothing, Input, State, Cfg, ladder_of, phase_of, base_state, act_on, ends_episode, choose_action,
  decide_session, before_until, is_nothing, idle_state,
}
use open_smart_charge.Session.Guards.{
  IsStalled, tests_of_stalled, decide_session-due, act_on-action,
}
use open_smart_charge.Session.Ladder.{choose_action-ne-nothing}

-- The guard-state after the observations, and the times of the actions taken on the way.
unfoldable pub state_after : Cfg → State → List Input → State
state_after cfg s [] = s
state_after cfg s (i ∷ is) = state_after cfg (decide_session s i cfg).next is

unfoldable pub action_times : Cfg → State → List Input → List ℕ
action_times cfg s [] = []
action_times cfg s (i ∷ is) =
    let rest = action_times cfg (decide_session s i cfg).next is in
    if is_nothing (decide_session s i cfg).action then rest else i.now ∷ rest

-- Every time lies at least `d` after the one before it, the first after `last`.
abbrev pub IsSpaced : ℕ → Option ℕ → List ℕ → Type 0
IsSpaced d last [] = Unit
IsSpaced d last (t ∷ ts) = (before_until last t d ≡ false) × IsSpaced d (some t) ts

-- What one tick does to the counters, if the episode goes on.
record Tick (cfg : Cfg) (s : State) (i : Input) : Type 0 where
  counted : (decide_session s i cfg).next.total_actions ≡ (
      if is_nothing (decide_session s i cfg).action then s.total_actions else s.total_actions + 1)
  stamped :
      (decide_session s i cfg).next.last_action
      ≡ (if is_nothing (decide_session s i cfg).action then s.last_action else some i.now)
  below : is_nothing (decide_session s i cfg).action ≡ false → s.total_actions < cfg.max_actions
  cooled :
      is_nothing (decide_session s i cfg).action ≡ false
      → before_until s.last_action i.now cfg.cooldown ≡ false

decide_session-Tick :
    (cfg : Cfg) (s : State) (i : Input) → ends_episode cfg i ≡ false → Tick cfg s i
unfolding decide_session act_on base_state
decide_session-Tick cfg s i h = record {
  counted = ground arith;
  stamped = ground arith;
  below = ground arith;
  cooled = ground arith;
}

-- While an episode lasts, the actions taken and those counted before never exceed `maxActions`, also
-- when the phase flips or the charger goes away in between, and any two of them are at least the
-- cooldown apart.
pub episode_bounded :
    (cfg : Cfg) (s : State) (is : List Input)
    → s.total_actions ≤ cfg.max_actions
    → All (λ i. ends_episode cfg i ≡ false) is
    → (s.total_actions + length (action_times cfg s is) ≤ cfg.max_actions)
      × IsSpaced cfg.cooldown s.last_action (action_times cfg s is)
unfolding action_times
episode_bounded cfg s [] h _ = (omega arith, tt)
episode_bounded cfg s (i ∷ is) h (e, es) =
    let t = decide_session-Tick cfg s i e in
    ground (
      arith,
      t.counted,
      t.stamped,
      t.below,
      t.cooled,
      episode_bounded cfg (decide_session s i cfg).next is,
    )

-- The stall began at `t`, and nothing was done about it yet.
record IsWaiting (t : ℕ) (s : State) : Type 0 where
  since : s.stalled_since ≡ some t
  fresh : s.total_actions ≡ 0
  rested : s.last_action ≡ none
  at_start : s.phase_attempts ≡ 0

start-IsWaiting :
    (cfg : Cfg) (i : Input)
    → IsStalled cfg i
    → 0 < cfg.grace
    → IsWaiting i.now (decide_session idle_state i cfg).next
unfolding decide_session base_state
start-IsWaiting cfg i st g = let (e, a) = tests_of_stalled cfg i st in ground arith

wait-IsWaiting :
    (cfg : Cfg) (t : ℕ) (s : State) (i : Input)
    → IsStalled cfg i
    → i.now < t + cfg.grace
    → IsWaiting t s
    → IsWaiting t (decide_session s i cfg).next
unfolding decide_session base_state
wait-IsWaiting cfg t s i st g w = let (e, a) = tests_of_stalled cfg i st in ground arith

waits-IsWaiting :
    (cfg : Cfg) (t : ℕ) (s : State) (is : List Input)
    → All (λ i. IsStalled cfg i × (i.now < t + cfg.grace)) is
    → IsWaiting t s
    → IsWaiting t (state_after cfg s is)
unfolding state_after
waits-IsWaiting cfg t s [] h w = w
waits-IsWaiting cfg t s (i ∷ is) h w =
    waits-IsWaiting cfg t (decide_session s i cfg).next is h.1
      (wait-IsWaiting cfg t s i h.0.0 h.0.1 w)

first_lever :
    (cfg : Cfg) (t : ℕ) (s : State) (i : Input)
    → IsWaiting t s
    → IsStalled cfg i
    → t + cfg.grace ≤ i.now
    → 0 < cfg.max_actions
    → (decide_session s i cfg).action ≡ choose_action i (phase_of i.status) 0
first_lever cfg t s i w st g m =
    ap (λ d. d.action)
      (decide_session-due cfg s i st
        (record { grace_over = rw w.since g; below_cap = rw w.fresh m; cooled = rw w.rested refl }))
    ∙ act_on-action s i
    ∙ ap (choose_action i (phase_of i.status)) attempts
  where
    attempts : (base_state s i).phase_attempts ≡ 0
    attempts = unfold base_state in ground arith

-- A stall does not go unanswered: if it begins in a fresh episode at the time of `first`, goes on at
-- every tick before the grace is over, and is seen again after it, then that tick takes the first
-- lever of the ladder, provided that the ladder has one and `maxActions` is not 0.
pub stall_is_answered :
    (cfg : Cfg) (first : Input) (is : List Input) (i : Input)
    → 0 < cfg.grace
    → 0 < cfg.max_actions
    → IsStalled cfg first
    → All (λ j. IsStalled cfg j × (j.now < first.now + cfg.grace)) is
    → IsStalled cfg i
    → first.now + cfg.grace ≤ i.now
    → ladder_of i (phase_of i.status) ≢ []
    → let d = decide_session (state_after cfg idle_state (first ∷ is)) i cfg in
      (d.action ≡ choose_action i (phase_of i.status) 0) × (d.action ≢ nothing)
unfolding state_after
stall_is_answered cfg first is i g m st_first waits st late lever =
    let e =
      first_lever cfg first.now _ i
        (waits-IsWaiting cfg first.now _ is waits (start-IsWaiting cfg first st_first g)) st late
        m in
    (e, λ n. choose_action-ne-nothing i _ 0 lever (sym e ∙ n))
