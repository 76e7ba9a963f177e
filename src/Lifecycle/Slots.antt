-- ===== src/Lifecycle/Slots.antt =====
-- The concurrency guard of `circuitTick` in src/core/lifecycle.ts: a request while a tick of the circuit
-- runs marks a rerun. The requests of the interval and of the handlers, and the ends of ticks, come in
-- any order; a handler changes the state of the loadpoint before its request.
mod Tests
use open_smart_charge.Base.{
  ℕ, ◌+◌, ◌-◌, ◌≤◌, ◌<◌, ◌≡◌, refl, Bool, true, false, arith, if◌then◌else◌, Bool-cases, inl, inr,
  ◌⊎◌,
}

-- An entry of `tickSlots`.
pub record Slot : Type 0 where
  pub running : Bool
  pub rerun : Bool

abbrev pub free : Slot
free = record { running = false; rerun = false }

-- The guard at the top, and whether the tick goes on.
unfoldable pub enter : Slot → Slot × Bool
enter s =
    if s.running then (record s { rerun = true }, false) else (record s { running = true }, true)

-- The `finally` block, and whether it starts a tick anew.
unfoldable pub leave : Slot → Slot × Bool
unfolding enter
leave s =
    if s.rerun
    then enter (record { running = false; rerun = false })
    else (record s { running = false }, false)

-- A circuit as time goes by: how many ticks of it run at once, how many changes were made, and how
-- many of them were made before the last tick started.
pub record World : Type 0 where
  pub slot : Slot
  pub active : ℕ
  pub changes : ℕ
  pub seen : ℕ

abbrev pub at_start : World
at_start = record { slot = free; active = 0; changes = 0; seen = 0 }

abbrev pub started : World → Slot × Bool → World
started w (s, go) =
    if go
    then record w { slot = s; active = w.active + 1; seen = w.changes }
    else record w { slot = s }

unfoldable pub request : World → World
request w = started w (enter w.slot)

unfoldable pub change : World → World
change w = request (record w { changes = w.changes + 1 })

-- A tick that runs ends, with or without an error.
unfoldable pub finish : World → World
finish w = started (record w { active = w.active - 1 }) (leave w.slot)

pub data Step : World → World → Type 0 where
  by_interval : (w : World) → Step w (request w)
  by_handler : (w : World) → Step w (change w)
  by_end : (w : World) → 0 < w.active → Step w (finish w)

pub data Runs : World → World → Type 0 where
  done : (w : World) → Runs w w
  next : {u v w : World} → Runs u v → Step v w → Runs u w

record IsGuarded (w : World) : Type 0 where
  counted : w.active ≡ (if w.slot.running then 1 else 0)
  only_while_running : w.slot.rerun ≡ true → w.slot.running ≡ true
  fresh : w.slot.rerun ≡ false → w.seen ≡ w.changes

Step-IsGuarded : {v w : World} → Step v w → IsGuarded v → IsGuarded w
unfolding request change finish enter leave
Step-IsGuarded (by_interval w) g = ground arith
Step-IsGuarded (by_handler w) g = ground arith
Step-IsGuarded (by_end w h) g = ground arith

Runs-IsGuarded : {v w : World} → Runs v w → IsGuarded v → IsGuarded w
Runs-IsGuarded (done w) g = g
Runs-IsGuarded (next r s) g = Step-IsGuarded s (Runs-IsGuarded r g)

settles :
    (w : World)
    → IsGuarded w
    → 0 < w.active
    → let w' = finish w in
      (w'.seen ≡ w'.changes)
      × (w'.slot.rerun ≡ false)
      × ((w'.active ≡ 0) ⊎ ((finish w').active ≡ 0))
unfolding finish leave enter
settles w g h = elim (Bool-cases w.slot.rerun) [
  | inl e ↦ rw e (refl, refl, inr (ground (arith, g.counted, g.only_while_running)))
  | inr e ↦ rw e (g.fresh e, refl, inl (ground (arith, g.counted)))
]

-- Whatever order requests, changes and ends of ticks come in, two ticks of a circuit never run at once,
-- and no change is lost: unless a rerun is marked, the last tick started after the newest change. When
-- the running tick ends, every change made so far has been followed by the start of a tick, and after
-- at most one more end the circuit is idle.
pub circuit_ticks-AreGuarded :
    (w : World)
    → Runs at_start w
    → (w.active ≤ 1)
      × (w.slot.rerun ≡ false → w.seen ≡ w.changes)
      × (0 < w.active
          → let w' = finish w in
            (w'.seen ≡ w'.changes)
            × (w'.slot.rerun ≡ false)
            × ((w'.active ≡ 0) ⊎ ((finish w').active ≡ 0)))
circuit_ticks-AreGuarded w r =
    let g =
      Runs-IsGuarded r
        (record { counted = refl; only_while_running = λ e. cc; fresh = λ e. refl }) in
    (ground (arith, g.counted), g.fresh, settles w g)
