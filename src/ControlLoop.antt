-- ===== src/ControlLoop.antt =====
-- src/core/control-loop.ts: how loadpoints form circuits, and the decision core of one circuit tick.
-- Currents are in mA, times in ms.
pub mod Circuits
pub mod Writes
mod Tests
use open_smart_charge.Base.{
  ℕ, ◌+◌, ◌*◌, ◌/◌, max, Bool, true, false, ◌&&◌, ◌||◌, Option, none, some, String, List, [], ◌∷◌,
  ◌++◌, map, ltb, leb, get_or_else, is_false, if◌then◌else◌, any_by, find_by, str_eq,
}
use open_smart_charge.Base.Dict.{Dict, get, put}
use open_smart_charge.Balancer.{Mode, disabled, smart, fast}
use open_smart_charge.Health.{Health, ok, is_ok}
use open_smart_charge.SmartCharging.Gates.{should_write}

-- The fields of `LoadpointConfig` that are read here.
pub record Loadpoint : Type 0 where
  pub name : String
  pub balancer : Option String

pub data Circuit : Type 0 where
  shared : String → List Loadpoint → Circuit
  bare : Loadpoint → Circuit

-- A text that is absent or empty counts as none.
unfoldable pub truthy : Option String → Option String
truthy none = none
truthy (some t) = if str_eq t "" then none else some t

abbrev pub Grouping : Type 0
Grouping = Dict (List Loadpoint) × List Circuit

abbrev group_under : Option String → Loadpoint → Grouping → Grouping
group_under none lp (groups, circuits) = (groups, circuits ++ (bare lp ∷ []))
group_under (some b) lp (groups, circuits) =
    (put groups b (get_or_else (get groups b) [] ++ (lp ∷ [])), circuits)

unfoldable pub group_all : List Loadpoint → Grouping → Grouping
group_all [] g = g
group_all (lp ∷ lps) g = group_all lps (group_under (truthy lp.balancer) lp g)

unfoldable pub build_circuits : List Loadpoint → List Circuit
build_circuits lps =
    let (groups, circuits) = group_all lps ([], []) in circuits ++ map (λ g. shared g.0 g.1) groups

abbrev pub members : Circuit → List Loadpoint
members (shared b lps) = lps
members (bare lp) = lp ∷ []

unfoldable pub circuit_for_loadpoint : List Circuit → String → Option Circuit
circuit_for_loadpoint circuits name =
    find_by (λ c. any_by (λ l. str_eq l.name name) (members c)) circuits

unfoldable pub bare_circuit_amps : Mode → Option Bool → ℕ → Bool → Bool → ℕ
bare_circuit_amps disabled should_charge budget reached pause = 0
bare_circuit_amps smart should_charge budget reached pause =
    if is_false should_charge then 0 else budget
bare_circuit_amps fast should_charge budget reached pause = if reached && pause then 0 else budget

abbrev pub fast_boost_unplug_grace : ℕ
fast_boost_unplug_grace = 5 * 60_000

-- `Math.floor(targetA / 2)`, in whole amps.
unfoldable pub soft_start_limit : ℕ → ℕ → ℕ → ℕ
soft_start_limit target prev min_a =
    if leb min_a prev || leb target min_a then target else max min_a (target / 2000 * 1000)

abbrev is_fast_mode : Mode → Bool
is_fast_mode fast = true
is_fast_mode _ = false

unfoldable pub should_expire_fast_to_smart : Mode → Option ℕ → ℕ → ℕ → Bool → Bool
should_expire_fast_to_smart mode none now grace enabled = false
should_expire_fast_to_smart mode (some since) now grace enabled =
    enabled && (is_fast_mode mode && ltb (since + grace) now)

-- `states` holds each loadpoint's live current.
unfoldable pub circuit_own_draw : List Loadpoint → Dict ℕ → Dict ℕ → ℕ
circuit_own_draw [] states commanded = 0
circuit_own_draw (lp ∷ lps) states commanded =
    max (get_or_else (get states lp.name) 0) (get_or_else (get commanded lp.name) 0)
    + circuit_own_draw lps states commanded

pub record Phases : Type 0 where
  pub i1 : Option ℕ
  pub i2 : Option ℕ
  pub i3 : Option ℕ

pub record Reader : Type 0 where
  pub health : Health
  pub latest : Option Phases

abbrev sole : Dict Reader → Option Reader
sole ((k, r) ∷ []) = some r
sole _ = none

unfoldable pub choose_reader : Option String → Dict Reader → Option Reader
choose_reader none readers = sole readers
choose_reader (some name) readers = get readers name

abbrev max_phase : Phases → ℕ
max_phase p = max (max (get_or_else p.i1 0) (get_or_else p.i2 0)) (get_or_else p.i3 0)

abbrev fresh_load : Option Reader → Option ℕ
fresh_load none = none
fresh_load (some r) =
    if is_ok r.health then elim r.latest [ none ↦ none | some p ↦ some (max_phase p) ] else none

unfoldable pub circuit_live_max_phase : Option String → Dict Reader → Option ℕ
circuit_live_max_phase name readers = fresh_load (choose_reader (truthy name) readers)

pub record Decision : Type 0 where
  pub loadpoint_name : String
  pub mode : Mode
  pub should_charge_now : Option Bool
  pub budget : ℕ
  pub last_commanded : Option ℕ
  pub target_reached : Bool
  pub pause_on_target : Bool

pub record Plan : Type 0 where
  pub amps : Dict ℕ
  pub writes : Dict ℕ

unfoldable pub amps_of : Option (Dict ℕ) → Decision → ℕ
amps_of none d =
    bare_circuit_amps d.mode d.should_charge_now d.budget d.target_reached d.pause_on_target
amps_of (some allocations) d = get_or_else (get allocations d.loadpoint_name) 0

unfoldable pub set_amps : Option (Dict ℕ) → List Decision → Dict ℕ → Dict ℕ
set_amps allocations [] amps = amps
set_amps allocations (d ∷ ds) amps =
    set_amps allocations ds (put amps d.loadpoint_name (amps_of allocations d))

unfoldable pub set_writes : Dict ℕ → ℕ → List Decision → Dict ℕ → Dict ℕ
set_writes amps deadband [] writes = writes
set_writes amps deadband (d ∷ ds) writes =
    let a = get_or_else (get amps d.loadpoint_name) 0 in
    set_writes amps deadband ds
      (if should_write a d.last_commanded deadband then put writes d.loadpoint_name a else writes)

unfoldable pub plan_circuit : List Decision → Option (Dict ℕ) → ℕ → Plan
plan_circuit ds allocations deadband =
    let amps = set_amps allocations ds [] in
    record { amps = amps; writes = set_writes amps deadband ds [] }
