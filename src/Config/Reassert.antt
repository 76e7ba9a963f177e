-- ===== src/Config/Reassert.antt =====
-- `applyConfigOverrides` of src/core/config-overrides.ts: the file asserts itself again.
use open_smart_charge.Base.{
  ◌+◌, ◌≡◌, ◌⊎◌, refl, sym, ap, ◌∙◌, Bool, true, false, not, String, List, [], ◌∷◌, ◌++◌, arith,
  if◌then◌else◌, Bool-cases, inl, inr, any_by, filter_by, All, All-map, All-filter_by, length,
  length-append,
}
use open_smart_charge.Config.{
  Config, Fields, OverrideKind, OverrideRow, singleton, entity, SingletonKind, EntityKind,
  same_kind, is_key, is_named, in_base, merge_entity, merge_override_into, merge_all, apply_rows,
  apply_config_overrides, Applied, delete_override,
}
use open_smart_charge.Config.Keys.{in_base_key, key_sym, key_refl, same_entity_eq}

-- The rows of a table that the file does not have.
abbrev pub IsAdded : Config → OverrideRow → Type 0
IsAdded base r = in_base base r.kind r.name ≡ false

-- A list that another one starts with.
abbrev pub StartsWith : List Fields → List Fields → Type 0
StartsWith xs ys = (rest : List Fields) × (ys ≡ xs ++ rest)

merge_entity-append :
    (xs rest : List Fields) (name : String) (patch : Fields)
    → any_by (is_named name) xs ≡ false
    → merge_entity (xs ++ rest) name patch ≡ xs ++ merge_entity rest name patch
unfolding merge_entity
merge_entity-append [] rest name patch h = refl
merge_entity-append (x ∷ xs) rest name patch h = elim (Bool-cases (is_named name x)) [
  | inl e ↦ absurd (let g : true ≡ false = rw e at h in cc)
  | inr e ↦ rw e (ap (λ l. x ∷ l) (merge_entity-append xs rest name patch (rw e at h)))
]

-- The sections are those of the file, and every array starts with the entities of the file.
abbrev pub Extends : Config → Config → Type 0
Extends base c =
    ((k : SingletonKind) → c.sections k ≡ base.sections k)
    × ((k : EntityKind) → StartsWith (base.entities k) (c.entities k))

merge-Extends :
    (base draft : Config) (kind : OverrideKind) (name : String) (patch : Fields)
    → in_base base kind name ≡ false
    → Extends base draft
    → Extends base (merge_override_into draft kind name patch)
unfolding merge_override_into in_base
merge-Extends base draft (singleton k) name patch h e = absurd (cc)
merge-Extends base draft (entity k) name patch h (sections, entities) = (
  sections,
  λ j. elim (Bool-cases (same_kind (entity j) (entity k))) [
    | inl same ↦
        let (rest, starts) = entities k in
        (
          merge_entity rest name patch,
          rw same (
              ap (λ l. merge_entity l name patch) starts
              ∙ merge_entity-append (base.entities k) rest name patch h
              ∙ ap (λ i. base.entities i ++ merge_entity rest name patch)
                  (sym (same_entity_eq j k same))),
        )
    | inr other ↦ let (rest, starts) = entities j in (rest, rw other starts)
  ],
)

merge_all-Extends :
    (base draft : Config) (rows : List OverrideRow)
    → All (IsAdded base) rows
    → Extends base draft
    → Extends base (merge_all draft rows)
unfolding merge_all
merge_all-Extends base draft [] h e = e
merge_all-Extends base draft (r ∷ rows) h e =
    merge_all-Extends base (merge_override_into draft r.kind r.name r.patch) rows h.1
      (merge-Extends base draft r.kind r.name r.patch h.0 e)

-- Every row of the table is not in the file, or has the key of a row that is still to come.
abbrev ToCome : Config → List OverrideRow → OverrideRow → Type 0
ToCome base rows r = IsAdded base r ⊎ (any_by (is_key r.kind r.name) rows ≡ true)

next-ToCome :
    (base : Config) (r q : OverrideRow) (rs : List OverrideRow)
    → (is_key q.kind q.name r ≡ true → IsAdded base q)
    → ToCome base (r ∷ rs) q
    → ToCome base rs q
next-ToCome base r q rs f (inl added) = inl added
next-ToCome base r q rs f (inr e) = elim (Bool-cases (is_key q.kind q.name r)) [
  | inl same ↦ inl (f same)
  | inr other ↦ inr (rw other at e)
]

delete-ToCome :
    (base : Config) (r : OverrideRow) (rs rows : List OverrideRow)
    → All (ToCome base (r ∷ rs)) rows
    → All (ToCome base rs) (filter_by (λ q. not (is_key r.kind r.name q)) rows)
delete-ToCome base r rs rows h =
    All-map (λ q. ToCome base (r ∷ rs) q × (not (is_key r.kind r.name q) ≡ true)) (ToCome base rs) _
      (λ q t.
        next-ToCome base r q rs
          (λ same.
            absurd (let e = sym (key_sym r q) ∙ same in let g : false ≡ true = rw e at (t.1) in cc))
          t.0)
      (All-filter_by (ToCome base (r ∷ rs)) (λ q. not (is_key r.kind r.name q)) rows h)

keep-ToCome :
    (base : Config) (r : OverrideRow) (rs rows : List OverrideRow)
    → IsAdded base r
    → All (ToCome base (r ∷ rs)) rows
    → All (ToCome base rs) rows
keep-ToCome base r rs rows added h =
    All-map (ToCome base (r ∷ rs)) (ToCome base rs) rows
      (λ q t.
        next-ToCome base r q rs (λ same. sym (in_base_key base q.kind q.name r same) ∙ added) t)
      h

self-ToCome : (base : Config) (rows : List OverrideRow) → All (ToCome base rows) rows
self-ToCome base [] = tt
self-ToCome base (r ∷ rows) = (
  inr (rw (key_refl r) refl),
  All-map (ToCome base rows) (ToCome base (r ∷ rows)) rows (λ q t. later q t)
      (self-ToCome base rows),
)
  where
    later : (q : OverrideRow) → ToCome base rows q → ToCome base (r ∷ rows) q
    later q (inl added) = inl added
    later q (inr e) = inr (ground arith)

apply_rows-IsAdded :
    (base : Config) (rs : List OverrideRow) (a : Applied)
    → All (ToCome base rs) a.rows
    → All (IsAdded base) (apply_rows base false rs a).rows
unfolding apply_rows delete_override
apply_rows-IsAdded base [] a h =
    All-map (ToCome base []) (IsAdded base) a.rows
      (λ r t. elim t [ inl added ↦ added | inr e ↦ absurd (cc) ]) h
apply_rows-IsAdded base (r ∷ rs) a h =
    go (λ a'. apply_rows-IsAdded base rs a') (in_base base r.kind r.name) refl
  where
    go :
        ((a' : Applied)
          → All (ToCome base rs) a'.rows
          → All (IsAdded base) (apply_rows base false rs a').rows)
        → (b : Bool) → in_base base r.kind r.name ≡ b
        → All
            (IsAdded base)
            (apply_rows base false rs (
              if b
              then record a {
                rows = (delete_override a.rows r.kind r.name).0;
                cleared = a.cleared ++ (r ∷ []);
              }
              else record a { preserved = a.preserved ++ (r ∷ []) })).rows
    go rest true e = rest _ (delete-ToCome base r rs a.rows h)
    go rest false e = rest _ (keep-ToCome base r rs a.rows e h)

apply_rows_split :
    (base : Config) (prune : Bool) (rs : List OverrideRow) (a : Applied)
    → let out = apply_rows base prune rs a in
      length out.cleared + length out.preserved
      ≡ length rs + (length a.cleared + length a.preserved)
unfolding apply_rows
apply_rows_split base prune [] a = omega arith
apply_rows_split base prune (r ∷ rs) a = ground (
  arith,
  apply_rows_split base prune rs (record a {
    rows = (delete_override a.rows r.kind r.name).0;
    cleared = a.cleared ++ (r ∷ []);
  }),
  apply_rows_split base prune rs (record a { preserved = a.preserved ++ (r ∷ []) }),
  length-append a.cleared (r ∷ []),
  length-append a.preserved (r ∷ []),
)

delete_listed :
    (r : OverrideRow) (rs rows : List OverrideRow)
    → All (λ q. any_by (is_key q.kind q.name) (r ∷ rs) ≡ true) rows
    → All
        (λ q. any_by (is_key q.kind q.name) rs ≡ true)
        (filter_by (λ q. not (is_key r.kind r.name q)) rows)
delete_listed r rs rows h =
    All-map
      (λ q. (any_by (is_key q.kind q.name) (r ∷ rs) ≡ true) × (not (is_key r.kind r.name q) ≡ true))
      (λ q. any_by (is_key q.kind q.name) rs ≡ true) _
      (λ q t. listed q (is_key r.kind r.name q) (key_sym r q) t.0 t.1)
      (All-filter_by (λ q. any_by (is_key q.kind q.name) (r ∷ rs) ≡ true)
        (λ q. not (is_key r.kind r.name q)) rows h)
  where
    listed :
        (q : OverrideRow) (b : Bool)
        → is_key q.kind q.name r ≡ b
        → any_by (is_key q.kind q.name) (r ∷ rs) ≡ true
        → not b ≡ true
        → any_by (is_key q.kind q.name) rs ≡ true
    listed q true e h n = absurd (cc)
    listed q false e h n = rw e at h

self_listed : (rows : List OverrideRow) → All (λ q. any_by (is_key q.kind q.name) rows ≡ true) rows
self_listed [] = tt
self_listed (r ∷ rows) = (
  rw (key_refl r) refl,
  All-map (λ q. any_by (is_key q.kind q.name) rows ≡ true)
      (λ q. any_by (is_key q.kind q.name) (r ∷ rows) ≡ true) rows (λ q e. ground arith)
      (self_listed rows),
)

none_listed : (rows : List OverrideRow) → All (λ q. false ≡ true) rows → rows ≡ []
none_listed [] h = refl
none_listed (r ∷ rows) h = absurd (let e = h.0 in cc)

pruned :
    (base : Config) (rs : List OverrideRow) (a : Applied)
    → All (λ q. any_by (is_key q.kind q.name) rs ≡ true) a.rows
    → (apply_rows base true rs a).rows ≡ []
unfolding apply_rows delete_override
pruned base [] a h = none_listed a.rows h
pruned base (r ∷ rs) a h = pruned base rs _ (delete_listed r rs a.rows h)

append_nil : {A : Type 0} (xs : List A) → xs ≡ xs ++ []
append_nil [] = refl
append_nil (x ∷ xs) = ap (λ l. x ∷ l) (append_nil xs)

-- Once the file asserts itself again, the overrides that are left belong to entities that the file does
-- not have, so that every section of the resulting draft is that of the file, and every array starts
-- with the entities of the file as they stand there; pruning leaves no override, and the file itself.
-- Every listed row is either cleared or preserved.
pub apply_config_overrides-Extends :
    (base : Config) (rows : List OverrideRow)
    → let kept = (apply_config_overrides base rows false).rows in
      All (IsAdded base) kept
      × Extends base (merge_all base kept)
      × (merge_all base (apply_config_overrides base rows true).rows ≡ base)
      × (let out = apply_config_overrides base rows false in
          length out.cleared + length out.preserved ≡ length rows)
unfolding apply_config_overrides merge_all
apply_config_overrides-Extends base rows =
    let start : Applied = record { rows = rows; cleared = []; preserved = [] } in
    let added = apply_rows-IsAdded base rows start (self-ToCome base rows) in
    (
      added,
      merge_all-Extends base base _ added (λ k. refl, λ k. ([], append_nil (base.entities k))),
      rw (pruned base rows start (self_listed rows)) refl,
      omega (arith, apply_rows_split base false rows start),
    )
