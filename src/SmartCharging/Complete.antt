-- ===== src/SmartCharging/Complete.antt =====
-- src/core/smart-charging/session-complete.ts: has the plug-in session completed? Energies are in Wh,
-- currents in mA, times in ms; `now - t >= d` is written `t + d <= now`.
use open_smart_charge.Base.{
  ℕ, ◌+◌, ◌≤◌, ◌<◌, ◌≡◌, ◌↔◌, refl, ◌⊎◌, Bool, true, false, ◌&&◌, ◌||◌, not, Option, none, some,
  List, [], ◌∷◌, arith, ltb, leb, get_or_else, if◌then◌else◌, All,
}

pub record CompleteInput : Type 0 where
  pub connected : Bool
  pub climate_active : Bool
  pub delivered : ℕ
  pub commanded_a : ℕ
  pub drawing_a : ℕ
  pub required : ℕ
  pub pause_on_target : Bool
  pub zero_draw_since : Option ℕ
  pub now : ℕ

pub record CompleteCfg : Type 0 where
  pub min_energy : ℕ
  pub draw_a : ℕ
  pub settle_time : ℕ

-- `SESSION_COMPLETE`: 0.1 kWh, 0.5 A, 60 s.
abbrev pub session_complete : CompleteCfg
session_complete = record { min_energy = 100; draw_a = 500; settle_time = 60_000 }

pub record CompleteResult : Type 0 where
  pub complete : Bool
  pub zero_draw_since : Option ℕ

abbrev settled : Option ℕ → ℕ → ℕ → Bool
settled none now d = false
settled (some t) now d = leb (t + d) now

unfoldable pub is_barred : CompleteInput → CompleteCfg → Bool
is_barred i cfg =
    not i.connected
    || (i.climate_active || (leb i.delivered cfg.min_energy || leb cfg.draw_a i.drawing_a))

unfoldable pub resolve_session_complete : CompleteInput → CompleteCfg → CompleteResult
unfolding is_barred
resolve_session_complete i cfg =
    if is_barred i cfg
    then record { complete = false; zero_draw_since = none }
    else let target_complete = leb i.required 0 && i.pause_on_target in
      let since =
        if ltb 0 i.commanded_a then some (get_or_else i.zero_draw_since i.now) else none in
      record {
        complete = target_complete || settled since i.now cfg.settle_time;
        zero_draw_since = since;
      }

-- A car is there, energy was delivered, and none flows now.
pub record IsQuiet (i : CompleteInput) (cfg : CompleteCfg) : Type 0 where
  pub is_connected : i.connected ≡ true
  pub no_climate : i.climate_active ≡ false
  pub delivered_some : cfg.min_energy < i.delivered
  pub not_drawing : i.drawing_a < cfg.draw_a

-- The session is complete exactly if the car is quiet and either the target is met and pauses, or
-- current is offered and has been refused for the settling time.
pub resolve_session_complete_iff :
    (i : CompleteInput) (cfg : CompleteCfg)
    → ((resolve_session_complete i cfg).complete ≡ true) ↔ (
        IsQuiet i cfg
        × (((i.required ≡ 0) × (i.pause_on_target ≡ true))
            ⊎ ((0 < i.commanded_a)
                × (get_or_else i.zero_draw_since i.now + cfg.settle_time ≤ i.now))))
unfolding resolve_session_complete
resolve_session_complete_iff i cfg = (λ h. ground arith, λ h. ground arith)

-- The settle timer that a run of observations leaves behind.
unfoldable pub timer_after : CompleteCfg → Option ℕ → List CompleteInput → Option ℕ
timer_after cfg since [] = since
timer_after cfg since (i ∷ is) =
    timer_after cfg
      (resolve_session_complete (record i { zero_draw_since = since }) cfg).zero_draw_since is

abbrev Refuses : CompleteCfg → CompleteInput → Type 0
Refuses cfg i = IsQuiet i cfg × (0 < i.commanded_a)

timer_kept :
    (cfg : CompleteCfg) (t : ℕ) (is : List CompleteInput)
    → All (Refuses cfg) is
    → timer_after cfg (some t) is ≡ some t
unfolding timer_after resolve_session_complete
timer_kept cfg t [] h = refl
timer_kept cfg t (i ∷ is) h = ground (arith, h.0, timer_kept cfg t is h.1)

-- If the car refuses the offered current from the tick `first` on, through every tick up to `i`, then
-- the tick `i` finds the session complete exactly if the settling time has passed since `first`, or
-- the target is met and pauses: the timer is neither lost nor started anew on the way.
pub refusal_completes :
    (cfg : CompleteCfg) (first : CompleteInput) (is : List CompleteInput) (i : CompleteInput)
    → All (Refuses cfg) (first ∷ is)
    → Refuses cfg i
    → (resolve_session_complete
        (record i { zero_draw_since = timer_after cfg none (first ∷ is) })
        cfg).complete
      ≡ (leb i.required 0 && i.pause_on_target || leb (first.now + cfg.settle_time) i.now)
unfolding timer_after resolve_session_complete
refusal_completes cfg first is i h r =
    let started : (resolve_session_complete (record first { zero_draw_since = none })
          cfg).zero_draw_since
        ≡ some first.now =
      ground (arith, h.0) in
    rw (started, timer_kept cfg first.now is h.1) (ground (arith, r))
