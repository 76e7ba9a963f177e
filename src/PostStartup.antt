-- ===== src/PostStartup.antt =====
-- src/core/post-startup.ts: the rounds of `postStartup` hooks. Whether a module's hook succeeds in a round
-- is a parameter of the run; the warnings of a single failure are left out.
pub mod Rounds
mod Tests
use open_smart_charge.Base.{
  ℕ, zero, suc, ◌+◌, ◌-◌, Bool, true, false, not, String, List, [], ◌∷◌, ◌++◌, map, ltb, ◌&&◌,
  filter_by, if◌then◌else◌,
}
use open_smart_charge.Health.{BackoffCfg, backoff_delay}

pub record PostStartupModule : Type 0 where
  pub id : String
  pub has_hook : Bool

pub data Effect : Type 0 where
  call : ℕ → PostStartupModule → Effect
  delay : ℕ → Effect
  gave_up : List PostStartupModule → Effect

abbrev pub is_empty : List PostStartupModule → Bool
is_empty [] = true
is_empty (m ∷ ms) = false

-- The hooks of one round, and the modules whose hook failed.
unfoldable pub failed_of :
    (PostStartupModule → ℕ → Bool) → ℕ → List PostStartupModule → List PostStartupModule
failed_of succeeds attempt [] = []
failed_of succeeds attempt (m ∷ ms) =
    let failed = failed_of succeeds attempt ms in if succeeds m attempt then failed else m ∷ failed

-- The loop; `left` counts the rounds up to the cap.
unfoldable pub rounds :
    (PostStartupModule → ℕ → Bool) → BackoffCfg → ℕ → ℕ → List PostStartupModule → List Effect
rounds succeeds cfg attempt left [] = []
rounds succeeds cfg attempt zero (m ∷ ms) = gave_up (m ∷ ms) ∷ []
rounds succeeds cfg attempt (suc left) (m ∷ ms) =
    let failed = failed_of succeeds attempt (m ∷ ms) in
    let rest = rounds succeeds cfg (suc attempt) left failed in
    map (call attempt) (m ∷ ms)
    ++ (if not (is_empty failed) && ltb 0 left
        then delay (backoff_delay attempt cfg) ∷ rest
        else rest)

unfoldable pub run_post_startup :
    (PostStartupModule → ℕ → Bool) → BackoffCfg → ℕ → List PostStartupModule → List Effect
run_post_startup succeeds cfg max_attempts modules =
    rounds succeeds cfg 1 max_attempts (filter_by (λ m. m.has_hook) modules)
