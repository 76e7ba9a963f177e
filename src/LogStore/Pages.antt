-- ===== src/LogStore/Pages.antt =====
-- The table stays ordered and bounded, and a page is the end of the export.
use open_smart_charge.Base.{
  ℕ, zero, suc, ◌+◌, ◌-◌, ◌≤◌, ◌<◌, ◌≡◌, refl, ap, Bool, true, List, [], ◌∷◌, ◌++◌, ltb, leb,
  filter_by, length, length-filter_by-le, take, All, All-map, All-filter_by, All-append, All-intro,
  Option, none, some, arith, Bool-cases, inl, inr, String,
}
use open_smart_charge.LogStore.{
  LogRow, Log, LogRecord, LogQuery, insert_log, passes, limit_of, reverse_onto, query_logs,
  export_rows, max_id, is_young, prune_logs,
}

-- Rows with growing keys above `low`.
abbrev pub IsAscending : ℕ → List LogRow → Type 0
IsAscending low [] = Unit
IsAscending low (r ∷ rs) = (low < r.id) × IsAscending r.id rs

IsAscending-weaken :
    (low l : ℕ) (rs : List LogRow) → low ≤ l → IsAscending l rs → IsAscending low rs
IsAscending-weaken low l [] h a = tt
IsAscending-weaken low l (r ∷ rs) h a = (omega (arith, h, a.0), a.1)

IsAscending-filter_by :
    (p : LogRow → Bool) (low : ℕ) (rs : List LogRow)
    → IsAscending low rs
    → IsAscending low (filter_by p rs)
IsAscending-filter_by p low [] a = tt
IsAscending-filter_by p low (r ∷ rs) a = elim (Bool-cases (p r)) [
  | inl e ↦ rw e (a.0, IsAscending-filter_by p r.id rs a.1)
  | inr e ↦
      rw e
        (IsAscending-weaken low r.id _ (omega (arith, a.0)) (IsAscending-filter_by p r.id rs a.1))
]

IsAscending-above :
    (low k : ℕ) (rs : List LogRow) → IsAscending low rs → All (λ r. k < r.id) rs → IsAscending k rs
IsAscending-above low k [] a h = tt
IsAscending-above low k (r ∷ rs) a h = (h.0, a.1)

length-IsAscending :
    (low top : ℕ) (rs : List LogRow)
    → IsAscending low rs
    → All (λ r. r.id ≤ top) rs
    → low ≤ top
    → low + length rs ≤ top
length-IsAscending low top [] a h le = omega (arith, le)
length-IsAscending low top (r ∷ rs) a h le =
    omega (arith, a.0, length-IsAscending r.id top rs a.1 h.1 h.0)

max_id-All : (rs : List LogRow) → All (λ r. r.id ≤ max_id rs) rs
unfolding max_id
max_id-All [] = tt
max_id-All (r ∷ rs) = (omega arith, All-map _ _ rs (λ x h. omega (arith, h)) (max_id-All rs))

length-capped :
    (n : ℕ) (kept : List LogRow)
    → IsAscending 0 kept
    → length (filter_by (λ r. ltb (max_id kept) (r.id + n)) kept) ≤ n
length-capped n kept a =
    let top = max_id kept in
    let p : LogRow → Bool = λ r. ltb top (r.id + n) in
    let h = All-filter_by (λ r. r.id ≤ top) p kept (max_id-All kept) in
    let below = All-map _ (λ r. r.id ≤ top) (filter_by p kept) (λ r x. x.0) h in
    let kept-IsAscending = IsAscending-filter_by p 0 kept a in
    elim (Bool-cases (leb n top)) [
      | inl e ↦
          let above =
            All-map _ (λ r. top - n < r.id) (filter_by p kept) (λ r x. ground (arith, x, e)) h in
          let le =
            length-IsAscending (top - n) top _
              (IsAscending-above 0 (top - n) _ kept-IsAscending above) below (omega arith) in
          ground (arith, e, le)
      | inr e ↦
          let le = length-IsAscending 0 top _ kept-IsAscending below (omega arith) in
          ground (arith, e, le)
    ]

take_all : (n : ℕ) (rs : List LogRow) → length rs ≤ n → take n rs ≡ rs
take_all zero [] h = refl
take_all (suc n) [] h = refl
take_all zero (r ∷ rs) h = ground (arith, h)
take_all (suc n) (r ∷ rs) h = ap (λ xs. r ∷ xs) (take_all n rs (omega (arith, h)))

take-le : (n : ℕ) (rs : List LogRow) → length (take n rs) ≤ n
take-le zero rs = omega arith
take-le (suc n) [] = omega arith
take-le (suc n) (r ∷ rs) = omega (arith, take-le n rs)

-- A table whose keys grow, and lie below the next one.
abbrev pub IsOrdered : Log → Type 0
IsOrdered log = IsAscending 0 log.rows × All (λ r. r.id ≤ log.last_id) log.rows

IsAscending-append :
    (low : ℕ) (rs : List LogRow) (new : LogRow)
    → IsAscending low rs
    → low < new.id
    → All (λ r. r.id < new.id) rs
    → IsAscending low (rs ++ (new ∷ []))
IsAscending-append low [] new a l h = (l, tt)
IsAscending-append low (r ∷ rs) new a l h = (a.0, IsAscending-append r.id rs new a.1 h.0 h.1)

insert_log-IsOrdered :
    (log : Log) (rec : LogRecord) → IsOrdered log → IsOrdered (insert_log log rec)
unfolding insert_log
insert_log-IsOrdered log rec o = (
  IsAscending-append 0 log.rows _ o.0 (omega arith)
      (All-map _ _ log.rows (λ r h. omega (arith, h)) o.1),
  All-append _ log.rows _ (All-map _ _ log.rows (λ r h. omega (arith, h)) o.1) (omega arith, tt),
)

prune_logs-IsOrdered :
    (log : Log) (now days n : ℕ) → IsOrdered log → IsOrdered (prune_logs log now days n)
unfolding prune_logs
prune_logs-IsOrdered log now days n o = (
  IsAscending-filter_by _ 0 _ (IsAscending-filter_by (is_young now days) 0 log.rows o.0),
  kept _ _ (kept (is_young now days) log.rows o.1),
)
  where
    kept :
        (p : LogRow → Bool) (rs : List LogRow)
        → All (λ r. r.id ≤ log.last_id) rs
        → All (λ r. r.id ≤ log.last_id) (filter_by p rs)
    kept p rs h = All-map _ _ (filter_by p rs) (λ r x. x.0) (All-filter_by _ p rs h)

rotated_short :
    (log : Log) (now days n : ℕ)
    → IsAscending 0 log.rows
    → length (prune_logs log now days n).rows ≤ n
unfolding prune_logs
rotated_short log now days n a =
    length-capped n _ (IsAscending-filter_by (is_young now days) 0 log.rows a)

rotated_young :
    (log : Log) (now days n : ℕ)
    → All (λ r. is_young now days r ≡ true) (prune_logs log now days n).rows
unfolding prune_logs
rotated_young log now days n =
    let h =
      All-filter_by (λ r. r ≡ r) (is_young now days) log.rows
        (All-intro (λ r. r ≡ r) log.rows (λ r. refl)) in
    let young = All-map _ (λ r. is_young now days r ≡ true) _ (λ r x. x.1) h in
    All-map _ _ _ (λ r x. x.0) (All-filter_by (λ r. is_young now days r ≡ true) _ _ young)

limit_of-le : (o : Option ℕ) → limit_of o ≤ 500
limit_of-le none = omega arith
limit_of-le (some n) = omega arith

-- In a table whose keys grow, inserting and rotating keep them growing. After a rotation at most
-- `max_rows` rows are left, none of them older than the retention. An export of at least `max_rows`
-- rows is then complete, and a page of a query is the newest rows of that export, newest first, at
-- most 500 of them.
pub prune_logs-query_logs :
    (is_like : String → String → Bool) (log : Log) (rec : LogRecord) (query : LogQuery)
    (now days max_rows cap : ℕ)
    → IsOrdered log
    → max_rows ≤ cap
    → let log' = prune_logs (insert_log log rec) now days max_rows in
      let export = export_rows is_like log' query cap in
      IsOrdered log'
      × (length log'.rows ≤ max_rows)
      × All (λ r. is_young now days r ≡ true) log'.rows
      × (export ≡ filter_by (passes is_like query) log'.rows)
      × (query_logs is_like log' query ≡ take (limit_of query.limit) (reverse_onto export []))
      × (length (query_logs is_like log' query) ≤ 500)
unfolding query_logs export_rows
prune_logs-query_logs is_like log rec query now days max_rows cap o le =
    let o' = insert_log-IsOrdered log rec o in
    let log' = prune_logs (insert_log log rec) now days max_rows in
    let short : length log'.rows ≤ max_rows =
      rotated_short (insert_log log rec) now days max_rows o'.0 in
    let all =
      take_all cap (filter_by (passes is_like query) log'.rows)
        (omega (arith, short, le, length-filter_by-le (passes is_like query) log'.rows)) in
    (
      prune_logs-IsOrdered (insert_log log rec) now days max_rows o',
      short,
      rotated_young (insert_log log rec) now days max_rows,
      all,
      rw all refl,
      omega (
        arith,
        take-le (limit_of query.limit)
            (reverse_onto (filter_by (passes is_like query) log'.rows) []),
        limit_of-le query.limit,
      ),
    )
