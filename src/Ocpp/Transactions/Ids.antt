-- ===== src/Ocpp/Transactions/Ids.antt =====
-- Transaction ids: the counter stays ahead of the table, and a closed transaction stays closed.
use mathlib.Core.Option.{some-injective}
use open_smart_charge.Base.{
  ℕ, ◌+◌, ◌<◌, ◌≡◌, ◌≢◌, refl, sym, ap, ◌∙◌, Bool, true, false, ◌&&◌, Option, none, some, String,
  [], ◌∷◌, ◌++◌, arith, if◌then◌else◌, str_eq, Bool-cases, inl, inr, All, All-append, All-map,
}
use open_smart_charge.Base.Int.{ℤ, pos}
use open_smart_charge.Ocpp.Transactions.{
  Transaction, Db, StartTransactionReq, allocate_transaction_id, insert_transaction,
  find_transaction, row_of, newest_open, find_open_transaction, end_rows, is_ended, latest_energy,
  close_found, close_open_transaction,
}
use open_smart_charge.Ocpp.Transactions.Rows.{
  IsKeyed, find-below, newest_open-find, newest_open-append, find-end_rows, ended-end_rows,
  ids-end_rows, IsKeyed-end_rows, append-IsKeyed,
}

pub record IsSound (db : Db) : Type 0 where
  pub next : ℕ
  pub counter : db.next_value ≡ some next
  pub below : All (λ t. t.id < next) db.transactions
  pub keyed : IsKeyed db.transactions

end_rows-IsSound :
    (db : Db) (id at : ℕ) (energy : ℤ)
    → IsSound db
    → IsSound (record db { transactions = end_rows id at energy db.transactions })
end_rows-IsSound db id at energy s = record {
  next = s.next;
  counter = s.counter;
  below = ids-end_rows (λ i. i < s.next) id at energy db.transactions s.below;
  keyed = IsKeyed-end_rows id at energy db.transactions s.keyed;
}

-- A transaction that is not there, or has ended, is not the open one.
find_open-ended :
    (db : Db) (st : String) (id : ℕ)
    → IsSound db
    → ((u : Transaction) → find_transaction id db.transactions ≡ some u → is_ended u ≡ true)
    → find_open_transaction db st ≢ some id
unfolding find_open_transaction
find_open-ended db st id s ended e =
    let (u, found, open_u) = newest_open-find st db.transactions id s.keyed e in
    let end_u = ended u found in ground (arith, open_u, end_u)

-- What closing `id` makes of a table.
abbrev pub Closes : Db → ℕ → Db → Type 0
Closes db id db' =
    IsSound db'
    × ((st : String) → find_open_transaction db' st ≢ some id)
    × ((k : ℕ) → k ≢ id → find_transaction k db'.transactions ≡ find_transaction k db.transactions)
    × ((u : Transaction)
        → find_transaction id db.transactions ≡ some u
        → is_ended u ≡ true
        → db' ≡ db)

close_found-Closes :
    (o : Option Transaction) (db : Db) (id now : ℕ)
    → find_transaction id db.transactions ≡ o
    → IsSound db
    → Closes db id (close_found o db id now)
close_found-Closes none db id now e s =
    (s, λ st. find_open-ended db st id s (λ u h. absurd cc), λ k n. refl, λ u h w. refl)
close_found-Closes (some t) db id now e s = elim (Bool-cases (is_ended t)) [
  | inl ended ↦ rw ended (
    s,
    (λ st.
        find_open-ended db st id s (λ u h. ap is_ended (some-injective _ _ (sym h ∙ e)) ∙ ended)),
    (λ k n. refl),
    λ u h w. refl,
  )
  | inr unended ↦
      let energy = pos (latest_energy db id) in
      let ended_db : Db = record db { transactions = end_rows id now energy db.transactions } in
      let sound = end_rows-IsSound db id now energy s in
      rw unended (
        sound,
        (λ st. find_open-ended ended_db st id sound (ended-end_rows id now energy db.transactions)),
        (λ k n. find-end_rows id k now energy db.transactions n),
        λ u h w. absurd (let same = some-injective _ _ (sym h ∙ e) in cc),
      )
]

-- Closing a transaction of a sound table leaves the table sound and all other transactions as they
-- were, no station's open transaction is the closed one any more, and one that has ended keeps its end
-- time and its energy.
pub close_open_transaction_lem :
    (db : Db) (id now : ℕ) → IsSound db → Closes db id (close_open_transaction db id now)
unfolding close_open_transaction
close_open_transaction_lem db id now s =
    close_found-Closes (find_transaction id db.transactions) db id now refl s

and_true : (b : Bool) → (b && true) ≡ b
and_true true = refl
and_true false = refl

-- The counter of a sound table gives an id that no row has, so that the insert succeeds; it leaves the
-- table sound, the new transaction is the open one of its station, and those of other stations stay.
pub insert_transaction-allocate :
    (db : Db) (loadpoint_name st : String) (params : StartTransactionReq)
    → IsSound db
    → let (counted, id) = allocate_transaction_id db in
      (db' : Db) × (insert_transaction counted loadpoint_name st id params ≡ some db')
      × IsSound db'
      × (find_transaction id db.transactions ≡ none)
      × ((other : String)
          → find_open_transaction db' other
            ≡ (if str_eq st other then some id else find_open_transaction db other))
unfolding allocate_transaction_id insert_transaction find_open_transaction
insert_transaction-allocate db lp st params s =
    let row : Transaction = row_of lp st s.next params in
    let db' : Db = record db {
      next_value = some (s.next + 1);
      transactions = db.transactions ++ (row ∷ []);
    } in
    let free = find-below s.next db.transactions s.below in
    rw s.counter (
      db',
      rw free refl,
      record {
        next = s.next + 1;
        counter = refl;
        below =
            All-append (λ t. t.id < s.next + 1) db.transactions (row ∷ [])
              (All-map (λ t. t.id < s.next) (λ t. t.id < s.next + 1) db.transactions
                (λ t lt. omega arith) s.below)
              (omega arith, tt);
        keyed = append-IsKeyed db.transactions row s.below s.keyed;
      },
      free,
      λ other.
          newest_open-append s.next other db.transactions row s.below
          ∙ ap (λ b. if b then some s.next else newest_open other db.transactions)
              (and_true (str_eq st other)),
    )
