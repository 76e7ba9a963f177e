-- ===== src/Lifecycle/Slots/Tests.antt =====
-- The guard of a circuit's ticks over three steps.
use open_smart_charge.Base.{◌<◌, ◌≤◌, ◌≡◌, ◌⊎◌, refl, arith, true, false}
use open_smart_charge.Lifecycle.Slots.{
  World, at_start, Runs, done, next, by_interval, by_handler, by_end, request, change, finish,
  enter, leave, circuit_ticks-AreGuarded,
}

-- The interval starts a tick, a handler asks during it, the tick ends, and the rerun runs.
abbrev world : World
world = finish (change (request at_start))

busy : 0 < (change (request at_start)).active
unfolding change request enter
busy = omega arith

abbrev three_steps : Runs at_start world
three_steps =
    next (next (next (done at_start) (by_interval at_start)) (by_handler (request at_start)))
      (by_end (change (request at_start)) busy)

reruns : (world.slot.running ≡ true) × (world.seen ≡ 1) × (world.active ≡ 1)
unfolding finish change request enter leave
reruns = (refl, refl, refl)

circuit_ticks-AreGuarded_example :
    (world.active ≤ 1)
    × (world.slot.rerun ≡ false → world.seen ≡ world.changes)
    × (0 < world.active
        → let w' = finish world in
          (w'.seen ≡ w'.changes)
          × (w'.slot.rerun ≡ false)
          × ((w'.active ≡ 0) ⊎ ((finish w').active ≡ 0)))
circuit_ticks-AreGuarded_example = circuit_ticks-AreGuarded world three_steps
