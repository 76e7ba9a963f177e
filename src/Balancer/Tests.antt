-- ===== src/Balancer/Tests.antt =====
-- Allocations of concrete circuits.
use open_smart_charge.Base.{
  ℕ, ◌+◌, ◌*◌, ◌≤◌, ◌≡◌, refl, Option, none, some, String, List, [], ◌∷◌, arith,
}
use open_smart_charge.Base.Dict.{put}
use open_smart_charge.Base.Int.{pos, ◌-ℤ◌, ◌+ℤ◌, min_ℤ}
use open_smart_charge.Balancer.{
  Mode, disabled, smart, fast, Snapshot, settle, is_close, serve_fast, serve_smart, floor_share,
  set_all, allocate, zeroes, wants,
}
use open_smart_charge.Balancer.Bounds.{total, allocate_bound}
use open_smart_charge.Balancer.Hysteresis.{holding, allocate_overdraws}

abbrev car : String → Mode → Option ℕ → Snapshot
car name m last = record {
  id = name;
  mode = m;
  commanded_a = last;
  max_current_a = 16_000;
  should_charge_now = none;
  target_reached = none;
  pause_on_target = none;
}

abbrev street : Option ℕ → List Snapshot
street last = car "a" smart last ∷ car "b" fast last ∷ car "c" disabled last ∷ []

fast_first : allocate (street none) (pos 25_000) ≡ ("c", 0) ∷ ("b", 16_000) ∷ ("a", 9000) ∷ []
unfolding allocate serve_fast serve_smart floor_share set_all zeroes wants settle is_close put min_ℤ
    ◌-ℤ◌ ◌+ℤ◌
fast_first = refl

allocate_bound_example : total (allocate (street (some 16_000)) (pos 25_000)) ≤ 25_000 + 1000 * 1
unfolding wants
allocate_bound_example = allocate_bound (street (some 16_000)) (pos 25_000)

allocate_overdraws_example :
    total (allocate (holding "a" 11_000 ∷ holding "b" 11_000 ∷ []) (pos 20_000)) ≡ 22_000
allocate_overdraws_example = allocate_overdraws "a" "b" 10 refl (omega arith)
