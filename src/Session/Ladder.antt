-- ===== src/Session/Ladder.antt =====
-- `chooseAction`: which lever is pulled at which attempt.
use open_smart_charge.Base.{
  ℕ, ◌-◌, min, ◌≡◌, ◌≢◌, refl, true, Option, none, some, List, [], ◌∷◌, arith, get_or_else,
  get_elem?, length, All, All-get_elem?, get_elem?-in_range,
}
use open_smart_charge.Session.{
  Action, nothing, remote_start, resume, wake_car, clear_profile, reset, Phase, no_session,
  session_open, in_fault, Input, ladder_of, choose_action,
}

-- What the hardware must be able to do for a lever.
abbrev pub CanPull : Input → Action → Type 0
CanPull i nothing = Unit
CanPull i remote_start = i.charger_can_remote_start ≡ true
CanPull i resume = i.charger_can_remote_start ≡ true
CanPull i wake_car = i.vehicle_can_actuate ≡ true
CanPull i clear_profile = i.charger_can_clear_profile ≡ true
CanPull i reset = i.charger_can_reset ≡ true

abbrev IsLever : Input → Action → Type 0
IsLever i a = CanPull i a × (a ≢ nothing)

ladder_of-IsLever : (i : Input) (p : Phase) → All (IsLever i) (ladder_of i p)
unfolding ladder_of
ladder_of-IsLever i no_session = ground arith
ladder_of-IsLever i in_fault = ground arith
ladder_of-IsLever i session_open = ground arith

-- The rung of a ladder that is not empty.
rung {ℓ} :
    {A : Type ℓ} (xs : List A) (n : ℕ)
    → xs ≢ []
    → (a : A) × (get_elem? xs (min n (length xs - 1)) ≡ some a)
rung [] n h = absurd (h refl)
rung (x ∷ xs) n h = get_elem?-in_range (x ∷ xs) (min n (length (x ∷ xs) - 1)) (omega arith)

-- The lever that is chosen, at whatever attempt, is one that the hardware can pull.
pub choose_action-CanPull : (i : Input) (p : Phase) (n : ℕ) → CanPull i (choose_action i p n)
unfolding choose_action
choose_action-CanPull i p n =
    go (get_elem? (ladder_of i p) (min n (length (ladder_of i p) - 1))) refl
  where
    go :
        (o : Option Action)
        → get_elem? (ladder_of i p) (min n (length (ladder_of i p) - 1)) ≡ o
        → CanPull i (get_or_else o nothing)
    go none e = tt
    go (some a) e = (All-get_elem? (IsLever i) (ladder_of i p) _ (ladder_of-IsLever i p) e).0

pub choose_action-ne-nothing :
    (i : Input) (p : Phase) (n : ℕ) → ladder_of i p ≢ [] → choose_action i p n ≢ nothing
unfolding choose_action
choose_action-ne-nothing i p n h =
    let (a, e) = rung (ladder_of i p) n h in
    rw e (All-get_elem? (IsLever i) (ladder_of i p) _ (ladder_of-IsLever i p) e).1

pub choose_action-empty :
    (i : Input) (p : Phase) (n : ℕ) → ladder_of i p ≡ [] → choose_action i p n ≡ nothing
unfolding choose_action
choose_action-empty i p n h = rw h
