-- ===== src/SmartCharging/Energy/Reaches.antt =====
-- The energy that src/core/smart-charging/energy.ts asks for, against the state of charge that
-- src/core/estimator.ts estimates from the energy delivered.
use native.Mathlib.Nat.{mul_assoc, mul_comm}
use open_smart_charge.Base.{
  ℕ, ◌+◌, ◌-◌, ◌*◌, ◌/◌, ◌≤◌, ◌<◌, ◌≡◌, ◌↔◌, sym, ap, ◌∙◌, some, arith, leb, get_or_else, min,
  Bool-cases, inl, inr, leb→le,
}
use open_smart_charge.Base.Divide.{ceil_div-le_iff, le-div_iff, div-le}
use open_smart_charge.SmartCharging.Energy.{
  EnergyInputs, Anchor, grid_energy, resolve_energy_target, by_soc, estimate_soc,
  estimate_soc_since_anchor, observed_efficiency, default_charging_efficiency,
}

grid_energy-le_iff :
    (soc target capacity efficiency d : ℕ)
    → 0 < efficiency
    → 0 < capacity
    → (grid_energy soc target capacity efficiency ≤ d)
      ↔ (target ≤ soc + d * (efficiency * 100) / capacity)
unfolding grid_energy
grid_energy-le_iff soc target capacity efficiency d he hc =
    let b = efficiency * 100 in
    let (c1, c2) = ceil_div-le_iff ((target - soc) * capacity) b d (omega arith) in
    let (d1, d2) = le-div_iff (d * b) capacity (target - soc) hc in
    (λ le. let q = d2 (c1 le) in omega arith, λ le. c2 (d1 (omega arith)))

by_soc_top :
    (i : EnergyInputs) (soc target capacity : ℕ)
    → 0 < capacity
    → (by_soc i (some soc) (some capacity) (some target)).value
      ≡ grid_energy soc target capacity (get_or_else i.efficiency default_charging_efficiency)
unfolding by_soc
by_soc_top i soc target capacity h = ground arith

pub estimate_soc_known :
    (soc d capacity efficiency : ℕ)
    → 0 < capacity
    → estimate_soc soc d (some capacity) efficiency
      ≡ some (min 100_000 (soc + d * (efficiency * 100) / capacity))
unfolding estimate_soc
estimate_soc_known soc d capacity efficiency h = ground arith

-- The top rung asks for exactly the energy that the estimate needs: delivering an energy brings the
-- estimated state of charge to the target if and only if it is at least the energy that was required.
-- The battery's capacity and the efficiency are above zero, and the target is at most full.
pub resolve_energy_target_reaches :
    (i : EnergyInputs) (soc target capacity delivered : ℕ)
    → 0 < get_or_else i.efficiency default_charging_efficiency
    → 0 < capacity
    → target ≤ 100_000
    → i.estimated_soc ≡ some soc
    → i.target_soc ≡ some target
    → i.battery_capacity ≡ some capacity
    → ((resolve_energy_target i).value ≤ delivered) ↔ (
        target
        ≤ get_or_else
            (estimate_soc soc delivered i.battery_capacity
              (get_or_else i.efficiency default_charging_efficiency))
            0)
unfolding resolve_energy_target by_soc estimate_soc
resolve_energy_target_reaches i soc target capacity delivered he hc ht e1 e2 e3 =
    let eff = get_or_else i.efficiency default_charging_efficiency in
    let (to, from) = grid_energy-le_iff soc target capacity eff delivered he hc in
    rw (e1, e2, e3)
      (rw (by_soc_top i soc target capacity hc, estimate_soc_known soc delivered capacity eff hc)
        (λ le. let x = to le in omega arith, λ le. from (omega arith)))

-- What the tests of `observed_efficiency` establish of its result.
record Observed (first latest : Anchor) (capacity efficiency : ℕ) : Type 0 where
  has_capacity : 0 < capacity
  enough_energy : first.session_energy + 3_000 ≤ latest.session_energy
  enough_soc : first.soc + 2_000 ≤ latest.soc
  not_below :
      (latest.session_energy - first.session_energy) * (100 * 700)
      ≤ (latest.soc - first.soc) * capacity
  not_above :
      (latest.soc - first.soc) * capacity
      ≤ (latest.session_energy - first.session_energy) * (100 * 980)
  quotient :
      efficiency
      ≡ (latest.soc - first.soc) * capacity / ((latest.session_energy - first.session_energy) * 100)

observed_efficiency-Observed :
    (first latest : Anchor) (capacity e : ℕ)
    → observed_efficiency first latest (some capacity) ≡ some e
    → Observed first latest capacity e
unfolding observed_efficiency
observed_efficiency-Observed first latest capacity e h = ground arith

quotient_in_band :
    (d g e : ℕ)
    → 0 < d
    → d * (100 * 700) ≤ g
    → g ≤ d * (100 * 980)
    → e ≡ g / (d * 100)
    → (700 ≤ e) × (e ≤ 980) × (d * (e * 100) ≤ g)
quotient_in_band d g e hd lo hi q =
    let (a1, a2) = le-div_iff g (d * 100) 700 (omega arith) in
    let (b1, b2) = le-div_iff g (d * 100) e (omega arith) in
    let (c1, c2) = le-div_iff g (d * 100) 981 (omega arith) in
    let swap : e * (d * 100) ≡ d * (e * 100) =
      sym (mul_assoc e d 100) ∙ ap (λ x. x * 100) (mul_comm e d) ∙ mul_assoc d e 100 in
    let top = b1 (omega arith) in
    (
      let x = a2 (omega arith) in omega arith,
      elim (Bool-cases (leb e 980)) [
        | inl le ↦ leb→le e 980 le
        | inr gt ↦ let x = c1 (ground arith) in omega arith
      ],
      omega arith,
    )

-- An efficiency that is observed lies in the trusted band, and the estimate that it carries forward from
-- the first reading of the session never runs ahead of the latest one.
pub observed_efficiency-IsSafe :
    (first latest : Anchor) (capacity e : ℕ)
    → observed_efficiency first latest (some capacity) ≡ some e
    → (700 ≤ e)
      × (e ≤ 980)
      × (get_or_else
            (estimate_soc_since_anchor first.soc first.session_energy latest.session_energy
              (some capacity)
              e)
            0
          ≤ latest.soc)
unfolding estimate_soc_since_anchor
observed_efficiency-IsSafe first latest capacity e h =
    let o = observed_efficiency-Observed first latest capacity e h in
    let d = latest.session_energy - first.session_energy in
    let (lo, hi, small) =
      quotient_in_band d ((latest.soc - first.soc) * capacity) e (omega (arith, o.enough_energy))
        o.not_below o.not_above o.quotient in
    let below : d * (e * 100) / capacity ≤ latest.soc - first.soc =
      div-le (d * (e * 100)) capacity (latest.soc - first.soc) o.has_capacity small in
    (
      lo,
      hi,
      rw (estimate_soc_known first.soc d capacity e o.has_capacity)
          (omega (arith, below, o.enough_soc)),
    )
