-- ===== src/ControlLoop/Tests.antt =====
-- Circuits and ticks at concrete inputs.
use open_smart_charge.Base.{ℕ, ◌≡◌, refl, true, false, Option, none, some, List, [], ◌∷◌, is_some}
use open_smart_charge.Base.Dict.{get, put}
use open_smart_charge.Balancer.{fast}
use open_smart_charge.SmartCharging.Gates.{should_write}
use open_smart_charge.ControlLoop.{
  Loadpoint, shared, bare, Decision, build_circuits, group_all, truthy, plan_circuit, amps_of,
  set_amps, set_writes, bare_circuit_amps,
}
use open_smart_charge.ControlLoop.Circuits.{count_members, build_circuits_partition}
use open_smart_charge.SmartCharging.Gates.{should_write}
use open_smart_charge.ControlLoop.{set_writes}

abbrev garage : List Loadpoint
garage =
    record { name = "a"; balancer = some "main" }
    ∷ record { name = "b"; balancer = none }
    ∷ record { name = "c"; balancer = some "main" }
    ∷ []

two_circuits :
    build_circuits garage
    ≡ bare (record { name = "b"; balancer = none })
      ∷ shared "main" (
          record { name = "a"; balancer = some "main" }
          ∷ record { name = "c"; balancer = some "main" }
          ∷ [])
      ∷ []
unfolding build_circuits group_all truthy get put
two_circuits = refl

build_circuits_partition_example :
    count_members (λ l. is_some l.balancer) (build_circuits garage) ≡ 2
build_circuits_partition_example = build_circuits_partition (λ l. is_some l.balancer) garage

-- A fast loadpoint that is offered 13 A after 10 A.
abbrev boosted : Option ℕ → List Decision
boosted last =
    record {
      loadpoint_name = "b";
      mode = fast;
      should_charge_now = none;
      budget = 13_000;
      last_commanded = last;
      target_reached = false;
      pause_on_target = true;
    }
    ∷ []

boosted_writes : (plan_circuit (boosted (some 10_000)) none 1000).writes ≡ ("b", 13_000) ∷ []
unfolding plan_circuit set_amps set_writes amps_of bare_circuit_amps should_write get put
boosted_writes = refl

steady : (plan_circuit (boosted (some 13_000)) none 1000).writes ≡ []
unfolding plan_circuit set_amps set_writes should_write amps_of bare_circuit_amps get put
steady = refl
