-- ===== src/Base/Divide.antt =====
-- Division rounded up, and when either quotient passes a bound.
use Prim.Native.Nat.{ℕ, ◌+◌, ◌-◌, ◌*◌, ◌/◌, ◌≤◌, ◌<◌}
use mathlib.Core.Logic.{◌↔◌}
use native.Mathlib.Nat.{le-div_iff_mul-le, div-lt_iff_lt-mul, add-mul}
use native.Mathlib.Omega.{arith}

abbrev pub ceil_div : ℕ → ℕ → ℕ
ceil_div a b = (a + b - 1) / b

pub ceil_div-le_iff : (a b n : ℕ) → 0 < b → (ceil_div a b ≤ n) ↔ (a ≤ n * b)
ceil_div-le_iff a b n h =
    let (to, from) = div-lt_iff_lt-mul {k = b} {x = a + b - 1} {y = n + 1} h in
    let e = add-mul n 1 b in
    (
      λ le. let lt = to (omega arith) in omega arith,
      λ le. let lt = from (omega arith) in omega arith,
    )

pub le-div_iff : (a b n : ℕ) → 0 < b → (n ≤ a / b) ↔ (n * b ≤ a)
le-div_iff a b n h = le-div_iff_mul-le {k = b} {x = n} {y = a} h

pub div-le : (a b n : ℕ) → 0 < b → a ≤ n * b → a / b ≤ n
div-le a b n h le =
    let (to, from) = div-lt_iff_lt-mul {k = b} {x = a} {y = n + 1} h in
    let e = add-mul n 1 b in let x = from (omega arith) in omega arith
