-- ===== src/Ocpp/Transactions/Rows.antt =====
-- The rows of the table of transactions: where an id stands, and what the updates leave of it.
use mathlib.Core.Option.{some-injective}
use open_smart_charge.Base.{
  ℕ, ◌<◌, ◌≡◌, ◌≢◌, ◌⊎◌, refl, sym, ap, subst, Bool, true, false, Option, none, some, String, List,
  [], ◌∷◌, ◌++◌, arith, ◌==◌, ==_iff, leb, if◌then◌else◌, Bool-cases, inl, inr, All, All-append,
}
use open_smart_charge.Base.Int.{ℤ}
use open_smart_charge.Ocpp.Transactions.{
  Transaction, find_transaction, is_open, larger_id, newest_open, end_rows, is_ended,
}

-- No id stands in the table twice.
abbrev pub IsKeyed : List Transaction → Type 0
IsKeyed [] = Unit
IsKeyed (t ∷ ts) = All (λ u. u.id ≢ t.id) ts × IsKeyed ts

-- Where an id stands.
find-All :
    (P : ℕ → Type 0) (m : ℕ) (ts : List Transaction) (u : Transaction)
    → All (λ t. P t.id) ts
    → find_transaction m ts ≡ some u
    → P m
find-All P m [] u h e = absurd cc
find-All P m (t ∷ ts) u h e = elim (Bool-cases (t.id == m)) [
  | inl same ↦ subst P ((==_iff t.id m).0 same) h.0
  | inr other ↦ find-All P m ts u h.1 (rw other at e)
]

pub find-below :
    (n : ℕ) (ts : List Transaction) → All (λ t. t.id < n) ts → find_transaction n ts ≡ none
find-below n [] h = refl
find-below n (t ∷ ts) h = ground (arith, find-below n ts h.1, h.0, ==_iff t.id n)

newest_cases :
    (b : Bool) (a : ℕ) (rest : Option ℕ) (m : ℕ)
    → (if b then larger_id a rest else rest) ≡ some m
    → ((b ≡ true) × (m ≡ a)) ⊎ (rest ≡ some m)
newest_cases true a none m e = inl (refl, sym (some-injective _ _ e))
newest_cases true a (some c) m e = elim (Bool-cases (leb a c)) [
  | inl below ↦ inr (ground (arith, e))
  | inr above ↦ inl (refl, ground (arith, e))
]
newest_cases false a rest m e = inr e

newest_open_below :
    (n : ℕ) (st : String) (ts : List Transaction) (m : ℕ)
    → All (λ t. t.id < n) ts
    → newest_open st ts ≡ some m
    → m < n
unfolding newest_open
newest_open_below n st [] m h e = absurd cc
newest_open_below n st (t ∷ ts) m h e =
    elim (newest_cases (is_open st t) t.id (newest_open st ts) m e) [
      | inl (o, same) ↦ subst (λ i. i < n) (sym same) h.0
      | inr older ↦ newest_open_below n st ts m h.1 older
    ]

-- The newest open transaction is an open row of the station.
pub newest_open-find :
    (st : String) (ts : List Transaction) (m : ℕ)
    → IsKeyed ts
    → newest_open st ts ≡ some m
    → (u : Transaction) × (find_transaction m ts ≡ some u) × (is_open st u ≡ true)
unfolding newest_open
newest_open-find st [] m k e = absurd cc
newest_open-find st (t ∷ ts) m k e =
    elim (newest_cases (is_open st t) t.id (newest_open st ts) m e) [
      | inl (o, same) ↦ (t, rw ((==_iff t.id m).1 (sym same)) refl, o)
      | inr older ↦
          let (u, f, o) = newest_open-find st ts m k.1 older in
          let apart : m ≢ t.id = find-All (λ i. i ≢ t.id) m ts u k.0 f in
          (u, ground (arith, f, apart, ==_iff t.id m), o)
    ]

pub newest_open-append :
    (n : ℕ) (st : String) (ts : List Transaction) (r : Transaction)
    → All (λ t. t.id < r.id) ts
    → newest_open st (ts ++ (r ∷ [])) ≡ (if is_open st r then some r.id else newest_open st ts)
unfolding newest_open
newest_open-append n st [] r h = refl
newest_open-append n st (t ∷ ts) r h = ground (arith, newest_open-append n st ts r h.1, h.0)

pub find-end_rows :
    (id k at : ℕ) (energy : ℤ) (ts : List Transaction)
    → k ≢ id
    → find_transaction k (end_rows id at energy ts) ≡ find_transaction k ts
unfolding end_rows
find-end_rows id k at energy [] n = refl
find-end_rows id k at energy (t ∷ ts) n =
    ground (arith, find-end_rows id k at energy ts n, ==_iff t.id id, ==_iff t.id k)

pub ended-end_rows :
    (id at : ℕ) (energy : ℤ) (ts : List Transaction) (u : Transaction)
    → find_transaction id (end_rows id at energy ts) ≡ some u
    → is_ended u ≡ true
unfolding end_rows
ended-end_rows id at energy [] u e = absurd cc
ended-end_rows id at energy (t ∷ ts) u e = elim (Bool-cases (t.id == id)) [
  | inl same ↦
      let found : some (record t { end_time = some at; energy = some energy }) ≡ some u =
        rw (same, same) at e in
      sym (ap is_ended (some-injective _ _ found))
  | inr other ↦ ended-end_rows id at energy ts u (rw (other, other) at e)
]

pub ids-end_rows :
    (P : ℕ → Type 0) (id at : ℕ) (energy : ℤ) (ts : List Transaction)
    → All (λ t. P t.id) ts
    → All (λ t. P t.id) (end_rows id at energy ts)
unfolding end_rows
ids-end_rows P id at energy [] h = tt
ids-end_rows P id at energy (t ∷ ts) h = (
  elim (Bool-cases (t.id == id)) [ inl same ↦ rw same h.0 | inr other ↦ rw other h.0 ],
  ids-end_rows P id at energy ts h.1,
)

pub IsKeyed-end_rows :
    (id at : ℕ) (energy : ℤ) (ts : List Transaction)
    → IsKeyed ts
    → IsKeyed (end_rows id at energy ts)
unfolding end_rows
IsKeyed-end_rows id at energy [] k = tt
IsKeyed-end_rows id at energy (t ∷ ts) k =
    let rest = IsKeyed-end_rows id at energy ts k.1 in
    let apart = ids-end_rows (λ i. i ≢ t.id) id at energy ts k.0 in
    elim (Bool-cases (t.id == id)) [
      | inl same ↦ rw same (apart, rest)
      | inr other ↦ rw other (apart, rest)
    ]

pub append-IsKeyed :
    (ts : List Transaction) (r : Transaction)
    → All (λ t. t.id < r.id) ts
    → IsKeyed ts
    → IsKeyed (ts ++ (r ∷ []))
append-IsKeyed [] r h k = (tt, tt)
append-IsKeyed (t ∷ ts) r h k = (
  All-append (λ u. u.id ≢ t.id) ts (r ∷ []) k.0 ((λ e. omega (arith, h.0)), tt),
  append-IsKeyed ts r h.1 k.1,
)
