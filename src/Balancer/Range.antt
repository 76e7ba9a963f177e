-- ===== src/Balancer/Range.antt =====
-- What each loadpoint is given.
use mathlib.Core.Option.{some-injective}
use open_smart_charge.Base.{
  ℕ, ◌+◌, ◌≤◌, ◌≡◌, refl, ◌⊎◌, inl, inr, true, false, not, some, String, List, [], ◌∷◌, arith,
  filter_by, All, str_eq, eq_iff, subst, sym, ◌∙◌, Bool-cases, All-map, All-filter_by,
}
use open_smart_charge.Base.Dict.{Dict, get, put, get-put}
use open_smart_charge.Base.Int.{ℤ, pos, ◌≤ℤ◌, ◌-ℤ◌, min_ℤ, min_ℤ-le, +ℤ_parts}
use open_smart_charge.Balancer.{
  Snapshot, ocpp_min_a, hysteresis_a, settle, serve_fast, serve_smart, set_all, allocate, zeroes,
  wants, is_fast,
}
use open_smart_charge.Balancer.Bounds.{settle_bound, smarts_of}

-- Zero, or at least the 6 A minimum and at most the ceiling and the 1 A of the hysteresis.
abbrev pub IsAllocation : ℕ → ℕ → Type 0
IsAllocation cap a = (a ≡ 0) ⊎ ((ocpp_min_a ≤ a) × (a ≤ cap + hysteresis_a))

-- The entries under a key satisfy a predicate.
abbrev Under : (ℕ → Type 0) → String → List (String × ℕ) → Type 0
Under P k = All (λ e. e.0 ≡ k → P e.1)

get-put-Under :
    (P : ℕ → Type 0) (k j : String) (m : Dict ℕ) (v : ℕ)
    → (j ≡ k → P v)
    → ((a : ℕ) → get m k ≡ some a → P a)
    → (a : ℕ) → get (put m j v) k ≡ some a
    → P a
get-put-Under P k j m v h g a e = elim (Bool-cases (str_eq j k)) [
  | inl same ↦
      let e' : some v ≡ some a = rw same at (sym (get-put m j k v) ∙ e) in
      subst P (some-injective _ _ e') (h ((eq_iff j k).0 same))
  | inr other ↦ let e' : get m k ≡ some a = rw other at (sym (get-put m j k v) ∙ e) in g a e'
]

get-set_all-Under :
    (P : ℕ → Type 0) (k : String) (m : Dict ℕ) (es : List (String × ℕ))
    → Under P k es
    → ((a : ℕ) → get m k ≡ some a → P a)
    → (a : ℕ) → get (set_all m es) k ≡ some a
    → P a
unfolding set_all
get-set_all-Under P k m [] h g a e = g a e
get-set_all-Under P k m ((j, v) ∷ es) h g a e =
    get-set_all-Under P k (put m j v) es h.1 (get-put-Under P k j m v h.0 g) a e

module _ (P : ℕ → Type 0) (k : String) (Q : Snapshot → Type 0) where
  -- Every value that a loadpoint of `Q` can be given is one of `P`.
  abbrev Gives : Type 0
  Gives =
      (lp : Snapshot) (give : ℤ)
      → Q lp
      → lp.id ≡ k
      → give ≤ℤ pos lp.max_current_a
      → P (settle lp.commanded_a give)

  serve_fast-Under :
      (r : ℤ) (lps : List Snapshot) → Gives → All Q lps → Under P k (serve_fast r lps).0
  unfolding serve_fast
  serve_fast-Under r [] g h = tt
  serve_fast-Under r (lp ∷ lps) g h =
      let give = min_ℤ (pos lp.max_current_a) r in
      (
        λ e. g lp give h.0 e (min_ℤ-le _ r).0,
        serve_fast-Under (r -ℤ pos (settle lp.commanded_a give)) lps g h.1,
      )

  serve_smart-Under :
      (share : ℤ) (lps : List Snapshot) → Gives → All Q lps → Under P k (serve_smart share lps)
  unfolding serve_smart
  serve_smart-Under share [] g h = tt
  serve_smart-Under share (lp ∷ lps) g h =
      (λ e. g lp _ h.0 e (min_ℤ-le share _).1, serve_smart-Under share lps g h.1)

zeroes-Under : (P : ℕ → Type 0) (k : String) (lps : List Snapshot) → P 0 → Under P k (zeroes lps)
unfolding zeroes
zeroes-Under P k [] h = tt
zeroes-Under P k (lp ∷ lps) h = elim (Bool-cases (wants lp)) [
  | inl w ↦ rw w (zeroes-Under P k lps h)
  | inr w ↦ rw w (λ e. h, zeroes-Under P k lps h)
]

-- A value of the result under a key: what a wanting loadpoint of that name can be given, or zero.
allocate-Under :
    (P : ℕ → Type 0) (k : String) (Q : Snapshot → Type 0) (lps : List Snapshot) (budget : ℤ)
    → P 0
    → Gives P k (λ lp. Q lp × (wants lp ≡ true))
    → All Q lps
    → (a : ℕ) → get (allocate lps budget) k ≡ some a
    → P a
unfolding allocate
allocate-Under P k Q lps budget z g h =
    let Q' : Snapshot → Type 0 = λ lp. Q lp × (wants lp ≡ true) in
    let wanting = filter_by wants lps in
    let fasts = serve_fast budget (filter_by is_fast wanting) in
    let kept : All Q' wanting = All-filter_by Q wants lps h in
    get-set_all-Under P k _ _
      (serve_smart-Under P k Q' _ _ g (
        All-map _ Q' (smarts_of lps) (λ lp p. p.0)
          (All-filter_by Q' (λ lp. not (is_fast lp)) wanting kept)))
      (get-set_all-Under P k _ fasts.0
        (serve_fast-Under P k Q' budget _ g (
          All-map _ Q' (filter_by is_fast wanting) (λ lp p. p.0)
            (All-filter_by Q' is_fast wanting kept)))
        (get-set_all-Under P k [] _ (zeroes-Under P k lps z) (λ a e. unfold get in cc)))

-- Every allocation is zero or at least the 6 A minimum, and exceeds the ceiling of its loadpoint by at
-- most the 1 A of the hysteresis.
pub allocate_range :
    (lps : List Snapshot) (budget : ℤ) (k : String) (cap a : ℕ)
    → All (λ lp. lp.max_current_a ≤ cap) lps
    → get (allocate lps budget) k ≡ some a
    → IsAllocation cap a
allocate_range lps budget k cap a h =
    allocate-Under (IsAllocation cap) k (λ lp. lp.max_current_a ≤ cap) lps budget (inl refl)
      (λ lp give q e low.
        omega (arith, q.0, low, settle_bound lp.commanded_a give, +ℤ_parts give (pos hysteresis_a)))
      h a

-- A name whose loadpoints want no current is given none: `disabled` ones, `smart` ones in an
-- expensive slot, `fast` ones that pause at the target that they reached.
pub allocate_off :
    (lps : List Snapshot) (budget : ℤ) (k : String) (a : ℕ)
    → All (λ lp. lp.id ≡ k → wants lp ≡ false) lps
    → get (allocate lps budget) k ≡ some a
    → a ≡ 0
allocate_off lps budget k a h =
    allocate-Under (λ v. v ≡ 0) k (λ lp. lp.id ≡ k → wants lp ≡ false) lps budget refl
      (λ lp give q e low. absurd (true≢false (sym q.1 ∙ q.0 e))) h a
  where
    true≢false : true ≡ false → ⊥
    true≢false e = cc
