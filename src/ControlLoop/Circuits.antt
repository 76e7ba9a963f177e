-- ===== src/ControlLoop/Circuits.antt =====
-- `buildCircuits` puts every loadpoint into one circuit.
use open_smart_charge.Base.{
  ℕ, ◌+◌, ◌≡◌, refl, sym, ◌∙◌, ap, Bool, Option, none, some, String, List, [], ◌∷◌, ◌++◌, map,
  arith, ltb, get_or_else, is_some, any_by, find_by, count_by, count_by-append, str_eq, Bool-cases,
  inl, inr,
}
use open_smart_charge.Base.Dict.{Dict, get, put}
use open_smart_charge.ControlLoop.{
  Loadpoint, Circuit, shared, bare, members, Grouping, group_under, group_all, build_circuits,
  truthy, circuit_for_loadpoint,
}

-- How many loadpoints of the circuits pass a test.
abbrev pub count_members : (Loadpoint → Bool) → List Circuit → ℕ
count_members p [] = 0
count_members p (c ∷ cs) = count_by p (members c) + count_members p cs

abbrev count_groups : (Loadpoint → Bool) → Dict (List Loadpoint) → ℕ
count_groups p [] = 0
count_groups p ((b, lps) ∷ gs) = count_by p lps + count_groups p gs

module _ (p : Loadpoint → Bool) where
  count_members-append :
      (cs ds : List Circuit) → count_members p (cs ++ ds) ≡ count_members p cs + count_members p ds
  count_members-append [] ds = omega arith
  count_members-append (c ∷ cs) ds = omega (arith, count_members-append cs ds)

  count_groups-put :
      (gs : Dict (List Loadpoint)) (b : String) (lp : Loadpoint)
      → count_groups p (put gs b (get_or_else (get gs b) [] ++ (lp ∷ [])))
        ≡ count_groups p gs + count_by p (lp ∷ [])
  unfolding get put
  count_groups-put [] b lp = omega arith
  count_groups-put ((j, lps) ∷ gs) b lp = elim (Bool-cases (str_eq j b)) [
    | inl same ↦ rw same (omega (arith, count_by-append p lps (lp ∷ [])))
    | inr other ↦ rw other (omega (arith, count_groups-put gs b lp))
  ]

  count_group_under :
      (b : Option String) (lp : Loadpoint) (g : Grouping)
      → count_groups p (group_under b lp g).0 + count_members p (group_under b lp g).1
        ≡ count_groups p g.0 + count_members p g.1 + count_by p (lp ∷ [])
  count_group_under none lp (gs, cs) = omega (arith, count_members-append cs (bare lp ∷ []))
  count_group_under (some b) lp (gs, cs) = omega (arith, count_groups-put gs b lp)

  count_group_all :
      (lps : List Loadpoint) (g : Grouping)
      → count_groups p (group_all lps g).0 + count_members p (group_all lps g).1
        ≡ count_groups p g.0 + count_members p g.1 + count_by p lps
  unfolding group_all
  count_group_all [] g = omega arith
  count_group_all (lp ∷ lps) g = omega (
    arith,
    count_group_all lps (group_under (truthy lp.balancer) lp g),
    count_group_under (truthy lp.balancer) lp g,
  )

  count_members-map :
      (gs : Dict (List Loadpoint))
      → count_members p (map (λ g. shared g.0 g.1) gs) ≡ count_groups p gs
  count_members-map [] = refl
  count_members-map ((b, lps) ∷ gs) = omega (arith, count_members-map gs)

  -- The circuits hold the same loadpoints as the configuration, each as often: whatever the test,
  -- as many loadpoints of the circuits pass it as of the configuration.
  pub build_circuits_partition :
      (lps : List Loadpoint) → count_members p (build_circuits lps) ≡ count_by p lps
  unfolding build_circuits
  build_circuits_partition lps =
      let (gs, cs) = group_all lps ([], []) in
      omega (
        arith,
        count_members-append cs (map (λ g. shared g.0 g.1) gs),
        count_members-map gs,
        count_group_all lps ([], []),
      )

  any_by-count : (xs : List Loadpoint) → any_by p xs ≡ ltb 0 (count_by p xs)
  any_by-count [] = refl
  any_by-count (x ∷ xs) = ground (arith, any_by-count xs)

  find_members :
      (cs : List Circuit)
      → is_some (find_by (λ c. any_by p (members c)) cs) ≡ ltb 0 (count_members p cs)
  find_members [] = refl
  find_members (c ∷ cs) = ground (arith, find_members cs, any_by-count (members c))

-- A loadpoint name has a circuit exactly when the configuration has a loadpoint of that name.
pub circuit_for_loadpoint-build_circuits :
    (lps : List Loadpoint) (name : String)
    → is_some (circuit_for_loadpoint (build_circuits lps) name)
      ≡ any_by (λ l. str_eq l.name name) lps
unfolding circuit_for_loadpoint
circuit_for_loadpoint-build_circuits lps name =
    find_members (λ l. str_eq l.name name) (build_circuits lps)
    ∙ ap (ltb 0) (build_circuits_partition (λ l. str_eq l.name name) lps)
    ∙ sym (any_by-count (λ l. str_eq l.name name) lps)
