-- ===== src/Plans/Active.antt =====
-- The plan that governs now.
use open_smart_charge.Base.{
  ℕ, suc, ◌≤◌, ◌≡◌, refl, sym, subst, Bool, true, false, Option, none, some, String, List, [], ◌∷◌,
  arith, ltb, ltb→lt, filter_by, if◌then◌else◌, Bool-cases, inl, inr, All, All-map, All-filter_by,
  get_elem?,
}
use open_smart_charge.LocalTime.{LocalParts}
use open_smart_charge.Plans.{
  Plan, ready_by_minutes, qualifies, earliest, first_of_candidates, select_active_plan,
}

abbrev pub IsIn : List Plan → Plan → Type 0
IsIn plans p = (n : ℕ) × (get_elem? plans n ≡ some p)

IsIn-self : (plans : List Plan) → All (IsIn plans) plans
IsIn-self [] = tt
IsIn-self (p ∷ ps) =
    ((0, refl), All-map (IsIn ps) (IsIn (p ∷ ps)) ps (λ q i. (suc i.0, i.1)) (IsIn-self ps))

All-of_filter_by :
    (P : Plan → Type 0) (f : Plan → Bool) (ps : List Plan)
    → All P (filter_by f ps)
    → All (λ p. f p ≡ true → P p) ps
All-of_filter_by P f [] h = tt
All-of_filter_by P f (p ∷ ps) h = elim (Bool-cases (f p)) [
  | inl on ↦
      let h' : P p × All P (filter_by f ps) = rw on at h in
      (λ _. h'.0, All-of_filter_by P f ps h'.1)
  | inr off ↦
      let h' : All P (filter_by f ps) = rw off at h in (λ on. absurd cc, All-of_filter_by P f ps h')
]

earliest-All :
    (P : Plan → Type 0) (best : Plan) (ps : List Plan) → P best → All P ps → P (earliest best ps)
unfolding earliest
earliest-All P best [] b h = b
earliest-All P best (p ∷ ps) b h =
    elim (Bool-cases (ltb (ready_by_minutes p.ready_by) (ready_by_minutes best.ready_by))) [
      | inl e ↦ rw e (earliest-All P p ps h.0 h.1)
      | inr e ↦ rw e (earliest-All P best ps b h.1)
    ]

abbrev ready : Plan → ℕ
ready p = ready_by_minutes p.ready_by

pick_le :
    (best p : Plan)
    → let c : Plan = if ltb (ready p) (ready best) then p else best in
      (ready c ≤ ready best) × (ready c ≤ ready p)
pick_le best p = elim (Bool-cases (ltb (ready p) (ready best))) [
  | inl e ↦ rw e (let lt = ltb→lt _ _ e in (omega arith, omega arith))
  | inr e ↦ rw e (omega arith, ground arith)
]

earliest_least :
    (best : Plan) (ps : List Plan)
    → (ready (earliest best ps) ≤ ready best) × All (λ p. ready (earliest best ps) ≤ ready p) ps
unfolding earliest
earliest_least best [] = (omega arith, tt)
earliest_least best (p ∷ ps) =
    let (l, r) = earliest_least (if ltb (ready p) (ready best) then p else best) ps in
    let (pb, pp) = pick_le best p in (omega arith, (omega arith, r))

abbrev pub Governs : LocalParts → Option String → List Plan → Option Plan → Type 0
Governs now active plans none = All (λ q. qualifies now active q ≡ false) plans
Governs now active plans (some p) =
    IsIn plans p
    × (qualifies now active p ≡ true)
    × All (λ q. qualifies now active q ≡ true → ready p ≤ ready q) plans

first_Governs :
    (now : LocalParts) (active : Option String) (plans candidates : List Plan)
    → candidates ≡ filter_by (qualifies now active) plans
    → Governs now active plans (first_of_candidates candidates)
first_Governs now active plans [] e =
    All-map _ _ plans
      (λ q h. elim (Bool-cases (qualifies now active q)) [ inl on ↦ absurd (h on) | inr off ↦ off ])
      (All-of_filter_by (λ q. ⊥) (qualifies now active) plans (subst (All (λ q. ⊥)) e tt))
first_Governs now active plans (c ∷ cs) e =
    let q = qualifies now active in
    let all : All (λ p. IsIn plans p × (q p ≡ true)) (c ∷ cs) =
      subst (All (λ p. IsIn plans p × (q p ≡ true))) (sym e)
        (All-filter_by (IsIn plans) q plans (IsIn-self plans)) in
    let least : All (λ p. ready (earliest c cs) ≤ ready p) (filter_by q plans) =
      subst (All (λ p. ready (earliest c cs) ≤ ready p)) e (earliest_least c cs) in
    let (i, yes_q) = earliest-All (λ p. IsIn plans p × (q p ≡ true)) c cs all.0 all.1 in
    (i, yes_q, All-of_filter_by (λ p. ready (earliest c cs) ≤ ready p) q plans least)

-- The choice is a plan of the list that is enabled, applies to the active vehicle, names today and is
-- still to come today, and no such plan is due earlier; there is no choice only if there is no such
-- plan.
pub select_active_plan-Governs :
    (plans : List Plan) (now : LocalParts) (active : Option String)
    → Governs now active plans (select_active_plan plans now active)
unfolding select_active_plan
select_active_plan-Governs plans now active = first_Governs now active plans _ refl
