-- ===== src/ControlLoop/Writes.antt =====
-- What one tick commands and what it writes to the chargers.
use mathlib.Core.Option.{some-injective}
use open_smart_charge.Base.{
  ℕ, ◌≤◌, ◌<◌, ◌≡◌, refl, sym, ap, ◌∙◌, ◌⊎◌, inl, inr, Bool, true, false, ◌||◌, Option, none, some,
  String, List, [], ◌∷◌, arith, get_or_else, if◌then◌else◌, str_eq, eq_iff, Bool-cases, All, any_by,
  ◌&&◌,
}
use open_smart_charge.Base.Dict.{Dict, get, put, get-put}
use open_smart_charge.ControlLoop.{
  Decision, amps_of, set_amps, set_writes, plan_circuit, bare_circuit_amps, soft_start_limit,
}
use open_smart_charge.SmartCharging.Gates.{should_write}

-- A soft start never commands more than the target nor less than the lower of target and minimum, and
-- a command that follows it commands the target itself.
pub soft_start_limit_ramp :
    (target prev min_a : ℕ)
    → (soft_start_limit target prev min_a ≤ target)
      × ((target ≤ soft_start_limit target prev min_a)
          ⊎ (min_a ≤ soft_start_limit target prev min_a))
      × (soft_start_limit target (soft_start_limit target prev min_a) min_a ≡ target)
unfolding soft_start_limit
soft_start_limit_ramp target prev min_a = ground arith

-- A decision about `k` whose amps clear the deadband.
abbrev pub clears : Dict ℕ → ℕ → String → Decision → Bool
clears amps deadband k d =
    str_eq d.loadpoint_name k && should_write (get_or_else (get amps k) 0) d.last_commanded deadband

get-put_if :
    (w : Bool) (m : Dict ℕ) (j k : String) (v : ℕ)
    → get (if w then put m j v else m) k ≡ (if str_eq j k && w then some v else get m k)
get-put_if true m j k v = ground (arith, get-put m j k v)
get-put_if false m j k v = ground arith

if_or :
    (s w r : Bool) (x y : Option ℕ)
    → (if r then x else if s && w then x else y) ≡ (if s && w || r then x else y)
if_or s w r x y = ground arith

get-set_writes :
    (amps : Dict ℕ) (deadband : ℕ) (ds : List Decision) (writes : Dict ℕ) (k : String)
    → get (set_writes amps deadband ds writes) k ≡ (
        if any_by (clears amps deadband k) ds
        then some (get_or_else (get amps k) 0)
        else get writes k)
unfolding set_writes
get-set_writes amps deadband [] writes k = refl
get-set_writes amps deadband (d ∷ ds) writes k =
    let a = λ (n : String). get_or_else (get amps n) 0 in
    let w = λ (n : String). should_write (a n) d.last_commanded deadband in
    let rest = any_by (clears amps deadband k) ds in
    get-set_writes amps deadband ds
      (if w d.loadpoint_name then put writes d.loadpoint_name (a d.loadpoint_name) else writes) k
    ∙ ap (λ o. if rest then some (a k) else o)
        (get-put_if (w d.loadpoint_name) writes d.loadpoint_name k (a d.loadpoint_name))
    ∙ named (str_eq d.loadpoint_name k) refl
    ∙ if_or (str_eq d.loadpoint_name k) (w k) rest (some (a k)) (get writes k)
  where
    pick : Bool → String → Option ℕ
    pick s n =
        if s && should_write (get_or_else (get amps n) 0) d.last_commanded deadband
        then some (get_or_else (get amps n) 0)
        else get writes k

    named :
        (s : Bool)
        → str_eq d.loadpoint_name k ≡ s
        → (if any_by (clears amps deadband k) ds
            then some (get_or_else (get amps k) 0)
            else pick (str_eq d.loadpoint_name k) d.loadpoint_name)
          ≡ (if any_by (clears amps deadband k) ds
              then some (get_or_else (get amps k) 0)
              else pick (str_eq d.loadpoint_name k) k)
    named true e =
        ap
          (λ n.
            if any_by (clears amps deadband k) ds
            then some (get_or_else (get amps k) 0)
            else pick (str_eq d.loadpoint_name k) n)
          ((eq_iff d.loadpoint_name k).0 e)
    named false e = rw e refl

-- A tick writes to a loadpoint exactly when a decision about it clears the deadband against the value
-- last sent (always, if none was sent), and it writes the amps of the plan.
pub plan_circuit_writes :
    (ds : List Decision) (allocations : Option (Dict ℕ)) (deadband : ℕ) (k : String)
    → let plan = plan_circuit ds allocations deadband in
      get plan.writes k ≡ (
        if any_by (clears plan.amps deadband k) ds
        then some (get_or_else (get plan.amps k) 0)
        else none)
unfolding plan_circuit
plan_circuit_writes ds allocations deadband k =
    rw (get-set_writes (set_amps allocations ds []) deadband ds [] k) (unfold get in refl)

bare_circuit_amps-le : (d : Decision) → amps_of none d ≤ d.budget
unfolding amps_of bare_circuit_amps
bare_circuit_amps-le d = ground arith

set_amps_bound :
    (ds : List Decision) (amps : Dict ℕ) (cap a : ℕ) (k : String)
    → All (λ d. d.budget ≤ cap) ds
    → ((b : ℕ) → get amps k ≡ some b → b ≤ cap)
    → get (set_amps none ds amps) k ≡ some a
    → a ≤ cap
unfolding set_amps
set_amps_bound [] amps cap a k h g e = g a e
set_amps_bound (d ∷ ds) amps cap a k h g e =
    set_amps_bound ds (put amps d.loadpoint_name (amps_of none d)) cap a k h.1
      (λ b e'. ground (
        arith,
        e',
        h.0,
        g b,
        get-put amps d.loadpoint_name k (amps_of none d),
        bare_circuit_amps-le d,
      ))
      e

default-le : (o : Option ℕ) (cap : ℕ) → ((b : ℕ) → o ≡ some b → b ≤ cap) → get_or_else o 0 ≤ cap
default-le none cap h = omega arith
default-le (some b) cap h = h b refl

bare_amps_bound :
    (ds : List Decision) (cap b : ℕ) (k : String)
    → All (λ d. d.budget ≤ cap) ds
    → get (set_amps none ds []) k ≡ some b
    → b ≤ cap
bare_amps_bound ds cap b k h = set_amps_bound ds [] cap b k h (λ b' e'. absurd (unfold get in cc))

-- Without a balancer no command and no write exceeds the budget that the current resolver allows.
pub plan_circuit_bare_bound :
    (ds : List Decision) (deadband cap a : ℕ) (k : String)
    → All (λ d. d.budget ≤ cap) ds
    → (get (plan_circuit ds none deadband).amps k ≡ some a)
      ⊎ (get (plan_circuit ds none deadband).writes k ≡ some a)
    → a ≤ cap
unfolding plan_circuit
plan_circuit_bare_bound ds deadband cap a k h (inl e) = bare_amps_bound ds cap a k h e
plan_circuit_bare_bound ds deadband cap a k h (inr e) =
    let amps = set_amps none ds [] in
    let e' = sym (get-set_writes amps deadband ds [] k) ∙ e in
    elim (Bool-cases (any_by (clears amps deadband k) ds)) [
      | inl c ↦
          let f : some (get_or_else (get amps k) 0) ≡ some a = rw c at e' in
          rw (← some-injective _ _ f)
            (default-le (get amps k) cap (λ b. bare_amps_bound ds cap b k h))
      | inr c ↦ absurd (unfold get in cc)
    ]

should_write_same : (a deadband : ℕ) → 0 < deadband → should_write a (some a) deadband ≡ false
unfolding should_write
should_write_same a deadband h = ground arith

set_writes_steady :
    (amps : Dict ℕ) (deadband : ℕ) (ds : List Decision)
    → 0 < deadband
    → All (λ d. d.last_commanded ≡ some (get_or_else (get amps d.loadpoint_name) 0)) ds
    → set_writes amps deadband ds [] ≡ []
unfolding set_writes
set_writes_steady amps deadband [] h s = refl
set_writes_steady amps deadband (d ∷ ds) h s =
    let a = get_or_else (get amps d.loadpoint_name) 0 in
    rw (s.0, should_write_same a deadband h) (set_writes_steady amps deadband ds h s.1)

-- A circuit that was last told what it is told now is left alone.
pub plan_circuit_steady :
    (ds : List Decision) (allocations : Option (Dict ℕ)) (deadband : ℕ)
    → 0 < deadband
    → let plan = plan_circuit ds allocations deadband in
      All (λ d. d.last_commanded ≡ some (get_or_else (get plan.amps d.loadpoint_name) 0)) ds
      → plan.writes ≡ []
unfolding plan_circuit
plan_circuit_steady ds allocations deadband h =
    set_writes_steady (set_amps allocations ds []) deadband ds h
