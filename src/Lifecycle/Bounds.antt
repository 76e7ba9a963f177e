-- ===== src/Lifecycle/Bounds.antt =====
-- What one tick of a circuit without a balancer commands, and whom it touches.
use open_smart_charge.Base.{
  ℕ, zero, suc, subst, ◌≤◌, ◌<◌, ◌≡◌, ◌⊎◌, refl, sym, ap, ◌∙◌, Bool, Option, none, some, String,
  List, [], ◌∷◌, arith, get_or_else, is_some, if◌then◌else◌, map, str_eq, Bool-cases, inl, inr, All,
  All-append,
}
use open_smart_charge.Base.Dict.{Dict, get, put, get-put}
use open_smart_charge.ControlLoop
use open_smart_charge.ControlLoop.{
  amps_of, bare_circuit_amps, set_amps, set_writes, plan_circuit, soft_start_limit,
}
use open_smart_charge.SmartCharging.Gates.{should_write}
use open_smart_charge.ControlLoop.Writes.{soft_start_limit_ramp}
use open_smart_charge.Session
use open_smart_charge.Session.{
  Action, nothing, remote_start, resume, wake_car, clear_profile, reset, Input, Cfg, ends_episode,
  decide_session,
}
use open_smart_charge.Lifecycle.{
  Resolved, Control, ChargerAbilities, Effect, limit, act, decision_of, write_limits, acts,
  complete_of, session_of, reconcile_one, reconcile_all, circuit_tick,
}

-- A limit within the budget, and an action only where the plan gives current. The limit that an action
-- asserts again is that of the plan, and within the budget.
abbrev pub IsSafe : ℕ → Dict ℕ → Effect → Type 0
IsSafe budget amps (limit k a) = a ≤ budget
IsSafe budget amps (act k action reassert) =
    (0 < get_or_else (get amps k) 0) × (reassert ≡ get_or_else (get amps k) 0) × (reassert ≤ budget)

abbrev Below : ℕ → String × ℕ → Type 0
Below budget e = e.1 ≤ budget

put-Below :
    (budget : ℕ) (m : Dict ℕ) (k : String) (v : ℕ)
    → v ≤ budget
    → All (Below budget) m
    → All (Below budget) (put m k v)
unfolding put
put-Below budget [] k v h all = (h, tt)
put-Below budget ((j, w) ∷ m) k v h all = elim (Bool-cases (str_eq j k)) [
  | inl e ↦ rw e (h, all.1)
  | inr e ↦ rw e (all.0, put-Below budget m k v h all.1)
]

get-Below :
    (budget : ℕ) (m : Dict ℕ) (k : String) → All (Below budget) m → get_or_else (get m k) 0 ≤ budget
unfolding get
get-Below budget [] k all = omega arith
get-Below budget ((j, w) ∷ m) k all = elim (Bool-cases (str_eq j k)) [
  | inl e ↦ rw e all.0
  | inr e ↦ rw e (get-Below budget m k all.1)
]

decisions_bound :
    (budget : ℕ) (commanded : Dict ℕ) (rs : List Resolved)
    → All (λ d. d.budget ≤ budget) (map (decision_of budget commanded) rs)
unfolding decision_of
decisions_bound budget commanded [] = tt
decisions_bound budget commanded (r ∷ rs) = (ground arith, decisions_bound budget commanded rs)

amps_of-le : (d : ControlLoop.Decision) → amps_of none d ≤ d.budget
unfolding amps_of bare_circuit_amps
amps_of-le d = ground arith

set_amps-Below :
    (budget : ℕ) (ds : List ControlLoop.Decision) (m : Dict ℕ)
    → All (λ d. d.budget ≤ budget) ds
    → All (Below budget) m
    → All (Below budget) (set_amps none ds m)
unfolding set_amps
set_amps-Below budget [] m h all = all
set_amps-Below budget (d ∷ ds) m h all =
    set_amps-Below budget ds (put m d.loadpoint_name (amps_of none d)) h.1
      (put-Below budget m d.loadpoint_name (amps_of none d) (omega (arith, amps_of-le d, h.0)) all)

set_writes-Below :
    (budget deadband : ℕ) (amps : Dict ℕ) (ds : List ControlLoop.Decision) (m : Dict ℕ)
    → All (Below budget) amps
    → All (Below budget) m
    → All (Below budget) (set_writes amps deadband ds m)
unfolding set_writes
set_writes-Below budget deadband amps [] m h all = all
set_writes-Below budget deadband amps (d ∷ ds) m h all =
    let a = get_or_else (get amps d.loadpoint_name) 0 in
    set_writes-Below budget deadband amps ds
      (if should_write a d.last_commanded deadband then put m d.loadpoint_name a else m) h
      (elim (Bool-cases (should_write a d.last_commanded deadband)) [
        | inl e ↦
            rw e
              (put-Below budget m d.loadpoint_name a (get-Below budget amps d.loadpoint_name h) all)
        | inr e ↦ rw e all
      ])

plan-Below :
    (budget deadband : ℕ) (ds : List ControlLoop.Decision)
    → All (λ d. d.budget ≤ budget) ds
    → All (Below budget) (plan_circuit ds none deadband).writes
unfolding plan_circuit
plan-Below budget deadband ds h =
    set_writes-Below budget deadband (set_amps none ds []) ds [] (set_amps-Below budget ds [] h tt)
      tt

-- What is remembered of a loadpoint is within the budget or what was remembered before.
abbrev pub Remembers : ℕ → Dict ℕ → Dict ℕ → Type 0
Remembers budget old new =
    (k : String) → (get_or_else (get new k) 0 ≤ budget) ⊎ (get new k ≡ get old k)

put-Remembers :
    (budget : ℕ) (old : Dict ℕ) (k : String) (a : ℕ) (new : Dict ℕ)
    → a ≤ budget
    → Remembers budget (put old k a) new
    → Remembers budget old new
put-Remembers budget old k a new h r j = elim (r j) [
  | inl le ↦ inl le
  | inr e ↦ elim (Bool-cases (str_eq k j)) [
    | inl same ↦ inl (rw (e ∙ get-put old k j a) (rw same h))
    | inr other ↦ inr (e ∙ get-put old k j a ∙ rw other refl)
  ]
]

write_limits-Remembers :
    (chargers : Dict ChargerAbilities) (budget : ℕ) (amps commanded : Dict ℕ) (ws : Dict ℕ)
    → All (Below budget) ws
    → let r = write_limits chargers commanded ws in
      All (IsSafe budget amps) r.1 × Remembers budget commanded r.0
unfolding write_limits
write_limits-Remembers chargers budget amps commanded [] h = (tt, λ k. inr refl)
write_limits-Remembers chargers budget amps commanded ((k, w) ∷ ws) h =
    let a = soft_start_limit w (get_or_else (get commanded k) 0) 6_000 in
    let low : a ≤ budget =
      omega (arith, (soft_start_limit_ramp w (get_or_else (get commanded k) 0) 6_000).0, h.0) in
    let (safe, kept) = write_limits-Remembers chargers budget amps (put commanded k a) ws h.1 in
    elim (Bool-cases (is_some (get chargers k))) [
      | inl e ↦ rw e ((low, safe), put-Remembers budget commanded k a _ low kept)
      | inr e ↦ rw e (write_limits-Remembers chargers budget amps commanded ws h.1)
    ]

session_idle :
    (states : Dict Session.State) (complete : Bool) (now : ℕ) (charger : ChargerAbilities)
    (r : Resolved)
    → (session_of states complete 0 now charger r).action ≡ nothing
unfolding session_of decide_session ends_episode
session_idle states complete now charger r = refl

nonzero : (n : ℕ) → (n ≡ 0 → ⊥) → 0 < n
nonzero zero h = absurd (h refl)
nonzero (suc n) h = omega arith

acts-IsSafe :
    (budget : ℕ) (amps : Dict ℕ) (k : String) (a : Action)
    → get_or_else (get amps k) 0 ≤ budget
    → (get_or_else (get amps k) 0 ≡ 0 → a ≡ nothing)
    → All (IsSafe budget amps) (acts k a (get_or_else (get amps k) 0))
acts-IsSafe budget amps k nothing low h = tt
acts-IsSafe budget amps k remote_start low h =
    ((nonzero _ (λ e. absurd (let x = h e in cc)), refl, low), tt)
acts-IsSafe budget amps k resume low h =
    ((nonzero _ (λ e. absurd (let x = h e in cc)), refl, low), tt)
acts-IsSafe budget amps k wake_car low h =
    ((nonzero _ (λ e. absurd (let x = h e in cc)), refl, low), tt)
acts-IsSafe budget amps k clear_profile low h =
    ((nonzero _ (λ e. absurd (let x = h e in cc)), refl, low), tt)
acts-IsSafe budget amps k reset low h =
    ((nonzero _ (λ e. absurd (let x = h e in cc)), refl, low), tt)

reconcile_one-IsSafe :
    (budget : ℕ) (amps : Dict ℕ) (now : ℕ) (o : Option ChargerAbilities) (c : Control)
    (r : Resolved)
    → All (Below budget) amps
    → let out = reconcile_one (get_or_else (get amps r.name) 0) now o c r in
      All (IsSafe budget amps) out.1 × (out.0.last_commanded ≡ c.last_commanded)
unfolding reconcile_one
reconcile_one-IsSafe budget amps now none c r low = (tt, refl)
reconcile_one-IsSafe budget amps now (some charger) c r low =
    let n = get_or_else (get amps r.name) 0 in
    let done = complete_of c.zero_draw_since n now r in
    (
      acts-IsSafe budget amps r.name
          (session_of c.session_states done.complete n now charger r).action
          (get-Below budget amps r.name low)
          (λ e.
            ap (λ m. (session_of c.session_states done.complete m now charger r).action) e
            ∙ session_idle c.session_states done.complete now charger r),
      refl,
    )

reconcile_all-IsSafe :
    (budget : ℕ) (amps : Dict ℕ) (now : ℕ) (chargers : Dict ChargerAbilities) (c : Control)
    (rs : List Resolved)
    → All (Below budget) amps
    → let out = reconcile_all amps now chargers c rs in
      All (IsSafe budget amps) out.1 × (out.0.last_commanded ≡ c.last_commanded)
unfolding reconcile_all
reconcile_all-IsSafe budget amps now chargers c [] low = (tt, refl)
reconcile_all-IsSafe budget amps now chargers c (r ∷ rs) low =
    let n = get_or_else (get amps r.name) 0 in
    let first = reconcile_one n now (get chargers r.name) c r in
    let (safe, same) = reconcile_one-IsSafe budget amps now (get chargers r.name) c r low in
    let (rest, same') = reconcile_all-IsSafe budget amps now chargers first.0 rs low in
    (All-append (IsSafe budget amps) first.1 _ safe rest, same' ∙ same)

-- In a tick of a circuit without a balancer every limit that is sent is within the resolved budget, the
-- session reconciler acts only on loadpoints to which the plan gives current, what it asserts again is
-- the plan's current and within the budget, and what is remembered as commanded is within the budget
-- too, unless it stays as it was.
pub circuit_tick-IsSafe :
    (budget deadband now : ℕ) (chargers : Dict ChargerAbilities) (c : Control) (rs : List Resolved)
    → let plan = plan_circuit (map (decision_of budget c.last_commanded) rs) none deadband in
      let (c', effects) = circuit_tick budget none deadband now chargers c rs in
      All (IsSafe budget plan.amps) effects × Remembers budget c.last_commanded c'.last_commanded
unfolding circuit_tick plan_circuit
circuit_tick-IsSafe budget deadband now chargers c rs =
    let ds = map (decision_of budget c.last_commanded) rs in
    let plan = plan_circuit ds none deadband in
    let low = plan-Below budget deadband ds (decisions_bound budget c.last_commanded rs) in
    let (sent, kept) =
      write_limits-Remembers chargers budget plan.amps c.last_commanded plan.writes low in
    let written = write_limits chargers c.last_commanded plan.writes in
    let (acted, same) =
      reconcile_all-IsSafe budget plan.amps now chargers (record c { last_commanded = written.0 })
        rs (set_amps-Below budget ds [] (decisions_bound budget c.last_commanded rs) tt) in
    (
      All-append (IsSafe budget plan.amps) written.1 _ sent acted,
      subst (Remembers budget c.last_commanded) (sym same) kept,
    )
