-- ===== src/PostStartup/Rounds.antt =====
-- What the hooks of the modules see.
use open_smart_charge.Base.{
  ℕ, zero, suc, ◌≡◌, refl, sym, ap, ◌∙◌, Bool, true, not, ◌&&◌, List, [], ◌∷◌, ◌++◌, map, ltb,
  filter_by, if◌then◌else◌, Bool-cases, inl, inr,
}
use open_smart_charge.Health.{BackoffCfg, backoff_delay}
use open_smart_charge.PostStartup.{
  PostStartupModule, Effect, call, delay, gave_up, is_empty, failed_of, rounds, run_post_startup,
}

-- The hook fails in each of the first `n` rounds.
unfoldable pub has_failed : (PostStartupModule → ℕ → Bool) → ℕ → PostStartupModule → Bool
has_failed succeeds zero m = true
has_failed succeeds (suc n) m = has_failed succeeds n m && not (succeeds m (suc n))

unfoldable pub give_up : List PostStartupModule → List Effect
give_up [] = []
give_up (m ∷ ms) = gave_up (m ∷ ms) ∷ []

abbrev pub called : ℕ → List PostStartupModule → Bool → ℕ → List Effect → List Effect
called attempt ms waits ms_delay rest =
    map (call attempt) ms ++ (if waits then delay ms_delay ∷ rest else rest)

-- The rounds after the first `n`: a module is called as long as its hook has failed in every round.
unfoldable pub described :
    (PostStartupModule → ℕ → Bool) → BackoffCfg → List PostStartupModule → ℕ → ℕ → List Effect
described succeeds cfg hooks n zero = give_up (filter_by (has_failed succeeds n) hooks)
described succeeds cfg hooks n (suc left) =
    called (suc n) (filter_by (has_failed succeeds n) hooks)
      (not (is_empty (filter_by (has_failed succeeds (suc n)) hooks)) && ltb 0 left)
      (backoff_delay (suc n) cfg) (described succeeds cfg hooks (suc n) left)

failed_of-filter :
    (succeeds : PostStartupModule → ℕ → Bool) (n : ℕ) (hooks : List PostStartupModule)
    → failed_of succeeds (suc n) (filter_by (has_failed succeeds n) hooks)
      ≡ filter_by (has_failed succeeds (suc n)) hooks
unfolding failed_of has_failed
failed_of-filter succeeds n [] = refl
failed_of-filter succeeds n (m ∷ hooks) = elim (Bool-cases (has_failed succeeds n m)) [
  | inl e ↦ elim (Bool-cases (succeeds m (suc n))) [
    | inl f ↦ rw (e, f) (failed_of-filter succeeds n hooks)
    | inr f ↦ rw (e, f) (ap (λ ms. m ∷ ms) (failed_of-filter succeeds n hooks))
  ]
  | inr e ↦ rw e (failed_of-filter succeeds n hooks)
]

all_kept :
    (succeeds : PostStartupModule → ℕ → Bool) (hooks : List PostStartupModule)
    → filter_by (has_failed succeeds 0) hooks ≡ hooks
unfolding has_failed
all_kept succeeds [] = refl
all_kept succeeds (m ∷ hooks) = ap (λ ms. m ∷ ms) (all_kept succeeds hooks)

rounds_empty :
    (succeeds : PostStartupModule → ℕ → Bool) (cfg : BackoffCfg) (n left : ℕ)
    (hooks : List PostStartupModule)
    → filter_by (has_failed succeeds n) hooks ≡ []
    → described succeeds cfg hooks n left ≡ []
unfolding described give_up failed_of
rounds_empty succeeds cfg n zero hooks e = rw e refl
rounds_empty succeeds cfg n (suc left) hooks e =
    let f : filter_by (has_failed succeeds (suc n)) hooks ≡ [] =
      sym (failed_of-filter succeeds n hooks) ∙ ap (failed_of succeeds (suc n)) e ∙ refl in
    rw (e, f) (rounds_empty succeeds cfg (suc n) left hooks f)

rounds-described :
    (succeeds : PostStartupModule → ℕ → Bool) (cfg : BackoffCfg) (n left : ℕ)
    (hooks ms : List PostStartupModule)
    → filter_by (has_failed succeeds n) hooks ≡ ms
    → rounds succeeds cfg (suc n) left ms ≡ described succeeds cfg hooks n left
unfolding rounds described give_up
rounds-described succeeds cfg n left hooks [] e = sym (rounds_empty succeeds cfg n left hooks e)
rounds-described succeeds cfg n zero hooks (m ∷ ms) e = rw e refl
rounds-described succeeds cfg n (suc left) hooks (m ∷ ms) e =
    let g : failed_of succeeds (suc n) (m ∷ ms) ≡ filter_by (has_failed succeeds (suc n)) hooks =
      ap (failed_of succeeds (suc n)) (sym e) ∙ failed_of-filter succeeds n hooks in
    rw (e, g, rounds-described succeeds cfg (suc n) left hooks _ refl) refl

-- The hooks run in rounds, whose number is at most the cap: a module with a hook is called in a round
-- if and only if its hook has failed in every round before. Between two rounds, where some hook has
-- failed and a round is left, the backoff of the round passes. After the last round the modules whose
-- hook has failed in all of them are given up, if there are any.
pub run_post_startup-described :
    (succeeds : PostStartupModule → ℕ → Bool) (cfg : BackoffCfg) (max_attempts : ℕ)
    (modules : List PostStartupModule)
    → run_post_startup succeeds cfg max_attempts modules
      ≡ described succeeds cfg (filter_by (λ m. m.has_hook) modules) 0 max_attempts
unfolding run_post_startup has_failed
run_post_startup-described succeeds cfg max_attempts modules =
    rounds-described succeeds cfg 0 max_attempts (filter_by (λ m. m.has_hook) modules) _
      (all_kept succeeds _)
