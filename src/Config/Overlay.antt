-- ===== src/Config/Overlay.antt =====
-- What an override stores and what it shows, src/core/config-overrides.ts.
use open_smart_charge.Base.{
  ℕ, ◌==◌, ==_iff, and_parts, ◌≡◌, refl, ◌∙◌, Bool, true, ◌&&◌, not, Option, none, some, String,
  List, [], ◌∷◌, arith, if◌then◌else◌, get_or_else, str_eq, eq_iff, is_some, Bool-cases, inl, inr,
  filter_by, Option-cases,
}
use open_smart_charge.Base.Dict.{get, put, get-put}
use open_smart_charge.Config.{
  Value, Fields, spread, OverrideKind, OverrideRow, same_kind, is_key, index_of, get_override,
  set_override, update_rows, insert_row, delete_override,
}

-- The last of two values of a key.
abbrev pub or_else : Option Value → Option Value → Option Value
or_else none old = old
or_else (some v) old = some v

-- The last entry of a key wins in a spread.
abbrev pub last_of : Fields → String → Option Value
last_of [] k = none
last_of ((j, v) ∷ b) k = or_else (last_of b k) (if str_eq j k then some v else none)

pub get-spread : (a b : Fields) (k : String) → get (spread a b) k ≡ or_else (last_of b k) (get a k)
unfolding spread
get-spread a [] k = refl
get-spread a ((j, v) ∷ b) k = ground (arith, get-spread (put a j v) b k, get-put a j k v)

same_pair :
    (i j l : ℕ) (a b c : String)
    → ((i == j) && str_eq a b) ≡ true
    → ((i == l) && str_eq a c) ≡ ((j == l) && str_eq b c)
same_pair i j l a b c h =
    let (e, f) = and_parts (i == j) (str_eq a b) h in rw ((==_iff i j).0 e, (eq_iff a b).0 f) refl

-- A row that has one key has another one exactly if the two are the same.
pub same_key :
    (k : OverrideKind) (n : String) (k' : OverrideKind) (n' : String) (r : OverrideRow)
    → is_key k n r ≡ true
    → is_key k' n' r ≡ (same_kind k k' && str_eq n n')
unfolding is_key same_kind
same_key k n k' n' r h = same_pair (index_of r.kind) (index_of k) (index_of k') r.name n n' h

same_pair_of :
    (i j l : ℕ) (a b c : String)
    → ((j == l) && str_eq b c) ≡ true
    → ((i == l) && str_eq a c) ≡ ((i == j) && str_eq a b)
same_pair_of i j l a b c h =
    let (e, f) = and_parts (j == l) (str_eq b c) h in rw ((==_iff j l).0 e, (eq_iff b c).0 f) refl

-- One key in two ways.
one_key :
    (k : OverrideKind) (n : String) (k' : OverrideKind) (n' : String) (r : OverrideRow)
    → (same_kind k k' && str_eq n n') ≡ true
    → is_key k' n' r ≡ is_key k n r
unfolding is_key same_kind
one_key k n k' n' r h = same_pair_of (index_of r.kind) (index_of k) (index_of k') r.name n n' h

pub get-cons :
    (k : OverrideKind) (n : String) (r : OverrideRow) (rows : List OverrideRow)
    → get_override (r ∷ rows) k n ≡ (if is_key k n r then some r.patch else get_override rows k n)
unfolding get_override
get-cons k n r rows = elim (Bool-cases (is_key k n r)) [ inl e ↦ rw e refl | inr e ↦ rw e refl ]

get-nil : (k : OverrideKind) (n : String) → get_override [] k n ≡ none
unfolding get_override
get-nil k n = refl

key_patched :
    (k : OverrideKind) (n : String) (r : OverrideRow) (f : Fields)
    → is_key k n (record r { patch = f }) ≡ is_key k n r
unfolding is_key
key_patched k n r f = refl

get-update_rows :
    (rows : List OverrideRow) (k : OverrideKind) (n : String) (f : Fields) (k' : OverrideKind)
    (n' : String)
    → get_override (update_rows k n f rows) k' n' ≡ (
        if same_kind k k' && str_eq n n'
        then (if is_some (get_override rows k n) then some f else none)
        else get_override rows k' n')
unfolding update_rows
get-update_rows [] k n f k' n' = ground (arith, get-nil k' n', get-nil k n)
get-update_rows (r ∷ rows) k n f k' n' = ground (
  arith,
  get-update_rows rows k n f k' n',
  same_key k n k' n' r,
  one_key k n k' n' r,
  key_patched k' n' r f,
  get-cons k n r rows,
  get-cons k' n' r rows,
  get-cons k' n' r (update_rows k n f rows),
  get-cons k' n' (record r { patch = f }) (update_rows k n f rows),
)

key_new :
    (k : OverrideKind) (n : String) (k' : OverrideKind) (n' : String) (f : Fields)
    → is_key k' n' (record { kind = k; name = n; patch = f }) ≡ (same_kind k k' && str_eq n n')
unfolding is_key same_kind
key_new k n k' n' f = refl

get-insert_row :
    (before : OverrideRow → OverrideRow → Bool) (rows : List OverrideRow) (k : OverrideKind)
    (n : String) (f : Fields) (k' : OverrideKind) (n' : String)
    → get_override rows k n ≡ none
    → get_override (insert_row before (record { kind = k; name = n; patch = f }) rows) k' n'
      ≡ (if same_kind k k' && str_eq n n' then some f else get_override rows k' n')
unfolding insert_row
get-insert_row before [] k n f k' n' e =
    get-cons k' n' (record { kind = k; name = n; patch = f }) [] ∙ rw (key_new k n k' n' f) refl
get-insert_row before (r ∷ rows) k n f k' n' e =
    let new : OverrideRow = record { kind = k; name = n; patch = f } in
    ground (
      arith,
      get-insert_row before rows k n f k' n',
      same_key k n k' n' r,
      one_key k n k' n' r,
      key_new k n k' n' f,
      get-cons k n r rows,
      get-cons k' n' r rows,
      get-cons k' n' r (insert_row before new rows),
      get-cons k' n' new (r ∷ rows),
    )

get-delete :
    (rows : List OverrideRow) (k : OverrideKind) (n : String) (k' : OverrideKind) (n' : String)
    → get_override (filter_by (λ r. not (is_key k n r)) rows) k' n'
      ≡ (if same_kind k k' && str_eq n n' then none else get_override rows k' n')
get-delete [] k n k' n' = ground (arith, get-nil k' n')
get-delete (r ∷ rows) k n k' n' = ground (
  arith,
  get-delete rows k n k' n',
  same_key k n k' n' r,
  one_key k n k' n' r,
  get-cons k' n' r rows,
  get-cons k' n' r (filter_by (λ r. not (is_key k n r)) rows),
)

-- An override that is set shows as the stored one with the patch laid over it, at its key, and no
-- other override changes; a deleted one is gone, and nothing else is. In the merged patch the last value
-- that either gave a field wins.
pub get_override-set_override :
    (before : OverrideRow → OverrideRow → Bool) (rows : List OverrideRow) (k : OverrideKind)
    (n : String) (patch : Fields) (k' : OverrideKind) (n' : String) (field : String)
    → let old = get_or_else (get_override rows k n) [] in
      (get_override (set_override before rows k n patch) k' n' ≡ (
        if same_kind k k' && str_eq n n' then some (spread old patch) else get_override rows k' n'))
      × (get_override (delete_override rows k n).0 k' n'
          ≡ (if same_kind k k' && str_eq n n' then none else get_override rows k' n'))
      × (get (spread old patch) field ≡ or_else (last_of patch field) (get old field))
unfolding set_override delete_override
get_override-set_override before rows k n patch k' n' field =
    let old = get_or_else (get_override rows k n) [] in
    (
      elim (Option-cases (get_override rows k n)) [
        | inl e ↦ rw e (get-insert_row before rows k n (spread [] patch) k' n' e)
        | inr (f, e) ↦ rw e (get-update_rows rows k n (spread f patch) k' n' ∙ rw e refl)
      ],
      get-delete rows k n k' n',
      get-spread old patch field,
    )
