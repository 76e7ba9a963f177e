-- ===== src/Planner/Cheapest.antt =====
-- `cheapestSlotsPlan` chooses as many slots as it is told, and no cheaper slot is left out.
use open_smart_charge.Base.{
  Option, ℕ, zero, suc, ◌+◌, ◌≤◌, ◌<◌, ◌≡◌, refl, ap, ◌∙◌, subst, true, false, List, [], ◌∷◌, ◌++◌,
  map, arith, ◌==◌, length, take, drop, take-append-drop, length-take, count_by, count_by-append,
  count_by-All, count_by-none, All, All-map, All-intro, All-drop, All-append, All-of_map,
  All-map_of, length-map, count_by-map, Bool-cases, inl, inr,
}
use open_smart_charge.Base.Int.{ℤ}
use open_smart_charge.Planner.{
  Slot, PricedSlot, PlannedSlot, TariffSlot, with_price, not_dearer, sort_by_price, has_start,
  cheapest_slots_plan, quarter,
}
use open_smart_charge.Planner.Sorting.{
  count_by-sort, All-of_sort, IsSorted, NotDearer, sort-IsSorted, length-sort,
}
use open_smart_charge.Planner.Slots.{Cover}

-- No two slots start at one time.
abbrev Distinct : List PricedSlot → Type 0
Distinct xs = (t : ℕ) → count_by (λ x. x.start == t) xs ≤ 1

has_start_self : (cs : List PricedSlot) → All (λ x. has_start cs x.start ≡ true) cs
has_start_self [] = tt
has_start_self (c ∷ cs) = (
  ground arith,
  All-map (λ x. has_start cs x.start ≡ true) (λ x. has_start (c ∷ cs) x.start ≡ true) cs
      (λ x h. ground arith) (has_start_self cs),
)

count-has_start :
    (cs : List PricedSlot) (t : ℕ) → has_start cs t ≡ true → 1 ≤ count_by (λ x. x.start == t) cs
count-has_start [] t h = cc
count-has_start (c ∷ cs) t h = ground (arith, count-has_start cs t)

count_self : (xs : List PricedSlot) → All (λ y. 1 ≤ count_by (λ x. x.start == y.start) xs) xs
count_self [] = tt
count_self (x ∷ xs) = (
  ground arith,
  All-map (λ y. 1 ≤ count_by (λ z. z.start == y.start) xs)
      (λ y. 1 ≤ count_by (λ z. z.start == y.start) (x ∷ xs)) xs (λ y h. omega arith)
      (count_self xs),
)

has_start-rest :
    (cs rest : List PricedSlot)
    → Distinct (cs ++ rest)
    → All (λ y. has_start cs y.start ≡ false) rest
has_start-rest cs rest d =
    All-map (λ y. 1 ≤ count_by (λ x. x.start == y.start) rest) (λ y. has_start cs y.start ≡ false)
      rest
      (λ y h. elim (Bool-cases (has_start cs y.start)) [
        | inr out ↦ out
        | inl hit ↦ absurd (
            omega (
              arith,
              h,
              d y.start,
              count-has_start cs y.start hit,
              count_by-append (λ x. x.start == y.start) cs rest,
            ))
      ])
      (count_self rest)

sorted-parts :
    (n : ℕ) (xs : List PricedSlot)
    → IsSorted xs
    → All (λ x. All (NotDearer x) (drop n xs)) (take n xs)
sorted-parts zero xs s = tt
sorted-parts (suc n) [] s = tt
sorted-parts (suc n) (x ∷ xs) s = (All-drop (NotDearer x) n xs s.0, sorted-parts n xs s.1)

module _ (priced : List PricedSlot) (n : ℕ) (distinct : Distinct priced) where
  sorted : List PricedSlot
  sorted = sort_by_price priced

  chosen : List PricedSlot
  chosen = take n (sort_by_price priced)

  -- A slot that is chosen is not dearer than one that is left out.
  abbrev Prefers : PricedSlot → PricedSlot → Type 0
  Prefers x y = has_start chosen x.start ≡ true → has_start chosen y.start ≡ false → NotDearer x y

  parts : chosen ++ drop n sorted ≡ sorted
  unfolding sorted chosen
  parts = take-append-drop n (sort_by_price priced)

  Distinct-parts : Distinct (chosen ++ drop n sorted)
  unfolding sorted
  Distinct-parts t = rw (parts, count_by-sort (λ x. x.start == t) priced) (distinct t)

  count-chosen : n ≤ length priced → count_by (λ x. has_start chosen x.start) priced ≡ n
  unfolding sorted chosen
  count-chosen h =
      let p = λ (x : PricedSlot). has_start chosen x.start in
      omega (
        arith,
        count_by-sort p priced,
        ap (count_by p) parts,
        count_by-append p chosen (drop n sorted),
        count_by-All p chosen (has_start_self chosen),
        count_by-none p (drop n sorted) (has_start-rest chosen (drop n sorted) Distinct-parts),
        length-take n sorted (rw (length-sort priced) h),
      )

  All-Prefers : All (λ x. All (Prefers x) priced) priced
  unfolding sorted chosen
  All-Prefers =
      All-of_sort (λ x. All (Prefers x) priced) priced
        (All-map (λ x. All (Prefers x) sorted) (λ x. All (Prefers x) priced) sorted
          (λ x. All-of_sort (Prefers x) priced)
          (subst (λ xs. All (λ x. All (Prefers x) xs) xs) parts whole))
    where
      rest : List PricedSlot
      rest = drop n sorted

      from_chosen : (x : PricedSlot) → All (NotDearer x) rest → All (Prefers x) (chosen ++ rest)
      from_chosen x h =
          All-append (Prefers x) chosen rest
            (All-map (λ y. has_start chosen y.start ≡ true) (Prefers x) chosen
              (λ y t a b. absurd (cc)) (has_start_self chosen))
            (All-map (NotDearer x) (Prefers x) rest (λ y d a b. d) h)

      whole : All (λ x. All (Prefers x) (chosen ++ rest)) (chosen ++ rest)
      whole =
          All-append (λ x. All (Prefers x) (chosen ++ rest)) chosen rest
            (All-map (λ x. All (NotDearer x) rest) (λ x. All (Prefers x) (chosen ++ rest)) chosen
              from_chosen (sorted-parts n sorted (sort-IsSorted priced)))
            (All-map (λ x. has_start chosen x.start ≡ false) (λ x. All (Prefers x) (chosen ++ rest))
              rest (λ x f. All-intro (Prefers x) (chosen ++ rest) (λ y a b. absurd (cc)))
              (has_start-rest chosen rest Distinct-parts))

Cover-before :
    (c to t : ℕ) (ss : List Slot) → Cover c to ss → t < c → count_by (λ s. s.start == t) ss ≡ 0
Cover-before c to t [] h lt = refl
Cover-before c to t (s ∷ ss) h lt = ground (arith, h.0, Cover-before (c + quarter) to t ss h.3)

Cover-distinct : (c to t : ℕ) (ss : List Slot) → Cover c to ss → count_by (λ s. s.start == t) ss ≤ 1
Cover-distinct c to t [] h = omega arith
Cover-distinct c to t (s ∷ ss) h =
    ground
      (arith, h.0, Cover-before (c + quarter) to t ss h.3, Cover-distinct (c + quarter) to t ss h.3)

module _ (prices : List TariffSlot) where
  -- The price that a planned slot was judged by.
  abbrev pub price_at : PlannedSlot → Option ℤ
  price_at p = (with_price prices (record { start = p.start; stop = p.stop })).price

  -- A chosen slot is not dearer than one that is left out.
  abbrev pub Preferred : PlannedSlot → PlannedSlot → Type 0
  Preferred p q =
      p.should_charge ≡ true → q.should_charge ≡ false → not_dearer (price_at p) (price_at q) ≡ true

module _ (prices : List TariffSlot) (c to needed : ℕ) (slots : List Slot)
    (cover : Cover c to slots) where
  Distinct-priced : Distinct (map (with_price prices) slots)
  unfolding with_price
  Distinct-priced t =
      rw (count_by-map (with_price prices) (λ x. x.start == t) slots)
        (Cover-distinct c to t slots cover)

  -- Of consecutive quarters exactly as many are chosen as are needed, if there are as many.
  pub count-cheapest_slots_plan :
      needed ≤ length slots
      → count_by (λ p. p.should_charge) (cheapest_slots_plan slots needed prices) ≡ needed
  unfolding cheapest_slots_plan chosen
  count-cheapest_slots_plan h =
      let priced = map (with_price prices) slots in
      count_by-map _ (λ p. p.should_charge) priced
      ∙ count-chosen priced needed Distinct-priced (rw (length-map (with_price prices) slots) h)

  abbrev priced_slots : List PricedSlot
  priced_slots = map (with_price prices) slots

  abbrev mark : PricedSlot → PlannedSlot
  mark s = record {
    start = s.start;
    stop = s.stop;
    should_charge = has_start (take needed (sort_by_price priced_slots)) s.start;
  }

  -- No quarter is left out that is cheaper than a chosen one; a quarter with no price counts as
  -- dearer than all others.
  pub cheapest_slots_plan_cheapest :
      let planned = cheapest_slots_plan slots needed prices in
      All (λ p. All (Preferred prices p) planned) planned
  unfolding cheapest_slots_plan chosen with_price
  cheapest_slots_plan_cheapest = All-of_map mark _ priced_slots (
      All-of_map (with_price prices) _ slots (
        All-map (λ s. All (Prefers (with_price prices s)) priced_slots)
          (λ s. All (Preferred prices (mark (with_price prices s))) (map mark priced_slots)) slots
          inner
          (All-map_of (with_price prices) (λ x. All (Prefers x) priced_slots) slots
            (All-Prefers priced_slots needed Distinct-priced))))
    where
      Prefers : PricedSlot → PricedSlot → Type 0
      Prefers x y =
          has_start (take needed (sort_by_price priced_slots)) x.start ≡ true
          → has_start (take needed (sort_by_price priced_slots)) y.start ≡ false
          → NotDearer x y

      inner :
          (s : Slot)
          → All (Prefers (with_price prices s)) priced_slots
          → All (Preferred prices (mark (with_price prices s))) (map mark priced_slots)
      inner s h = All-of_map mark _ priced_slots (
          All-of_map (with_price prices) _ slots
            (All-map_of (with_price prices) (Prefers (with_price prices s)) slots h))
