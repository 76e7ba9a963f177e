-- ===== src/LogStore.antt =====
-- src/core/log-store.ts: the rows of the log, what a record of the logger is stored as, the queries and the
-- rotation. Times are in ms since the epoch, which is the order of their ISO texts; SQLite's `LIKE` and
-- the parser of dates are parameters. Stream and console legs only feed `insert_log`.
pub mod Pages
mod Tests
use open_smart_charge.Base.{
  ℕ, zero, suc, ◌+◌, ◌*◌, min, max, Bool, true, false, not, ◌&&◌, ◌||◌, Option, none, some, String,
  List, [], ◌∷◌, ◌++◌, ltb, leb, str_eq, if◌then◌else◌, filter_by, any_by, take, get_or_else,
}
use open_smart_charge.Base.Dict.{Dict, get}
use Prim.Native.String.{◌++◌ as str_append}

pub data LogLevel : Type 0 where
  debug info warn error : LogLevel

-- `LEVEL_ORDER`.
abbrev pub rank : LogLevel → ℕ
rank debug = 0
rank info = 1
rank warn = 2
rank error = 3

-- A value of a record: an object with the texts of its `stack` and `message`, or another value with
-- its text.
pub data Json : Type 0 where
  null : Json
  text : String → Json
  number : ℕ → String → Json
  object : Option String → Option String → String → Json
  other : String → Json

unfoldable pub level_of : ℕ → LogLevel
level_of n = if leb 50 n then error else if leb 40 n then warn else if leb 30 n then info else debug

unfoldable pub bucket_level : Option Json → LogLevel
bucket_level (some (number n shown)) = level_of n
bucket_level _ = level_of 30

abbrev pub module_keys : List String
module_keys = "charger" ∷ "vehicle" ∷ "tariff" ∷ "balancer" ∷ "loadpoint" ∷ "meter" ∷ []

abbrev pub non_field_keys : List String
non_field_keys = "level" ∷ "time" ∷ "pid" ∷ "hostname" ∷ "msg" ∷ "v" ∷ "err" ∷ "module" ∷ []

abbrev pub text_of : Option Json → Option String
text_of (some (text s)) = some s
text_of _ = none

abbrev pub labelled : String → Option String → Option String → Option String
labelled k (some v) rest = some (str_append k (str_append ":" v))
labelled k none rest = rest

unfoldable pub first_label : Dict Json → List String → Option String
first_label rec [] = none
first_label rec (k ∷ ks) = labelled k (text_of (get rec k)) (first_label rec ks)

abbrev pub or_else : Option String → Option String → Option String
or_else (some s) rest = some s
or_else none rest = rest

unfoldable pub extract_module : Dict Json → Option String
extract_module rec = or_else (text_of (get rec "module")) (first_label rec module_keys)

unfoldable pub extract_err : Option Json → Option String
extract_err none = none
extract_err (some null) = none
extract_err (some (text s)) = some s
extract_err (some (number n shown)) = some shown
extract_err (some (object stack message shown)) = or_else stack (or_else message (some shown))
extract_err (some (other shown)) = some shown

unfoldable pub extract_fields : Dict Json → Option (Dict Json)
extract_fields rec =
    let out = filter_by (λ e. not (any_by (str_eq e.0) non_field_keys)) rec in
    elim out as (λ x. Option (Dict Json)) [ [] ↦ none | _ ∷ _ ↦ some out ]

pub record LogRecord : Type 0 where
  pub time : ℕ
  pub level : LogLevel
  pub component : Option String
  pub msg : String
  pub fields : Option (Dict Json)
  pub err : Option String

unfoldable pub record_time : (String → Option ℕ) → ℕ → Option Json → ℕ
record_time parse_date now none = now
record_time parse_date now (some null) = now
record_time parse_date now (some (number n shown)) = n
record_time parse_date now (some (text s)) = get_or_else (parse_date s) now
record_time parse_date now (some (object stack message shown)) = get_or_else (parse_date shown) now
record_time parse_date now (some (other shown)) = get_or_else (parse_date shown) now

unfoldable pub pino_record_to_log : (String → Option ℕ) → ℕ → Dict Json → LogRecord
pino_record_to_log parse_date now rec = record {
  time = record_time parse_date now (get rec "time");
  level = bucket_level (get rec "level");
  component = extract_module rec;
  msg = get_or_else (text_of (get rec "msg")) "";
  fields = extract_fields rec;
  err = extract_err (get rec "err");
}

-- A row with its key.
pub record LogRow : Type 0 where
  pub id : ℕ
  pub entry : LogRecord

-- The table in the order of its keys, and the last key that was given out.
pub record Log : Type 0 where
  pub rows : List LogRow
  pub last_id : ℕ

unfoldable pub insert_log : Log → LogRecord → Log
insert_log log rec = record {
  rows = log.rows ++ (record { id = log.last_id + 1; entry = rec } ∷ []);
  last_id = log.last_id + 1;
}

pub record LogQuery : Type 0 where
  pub level : Option LogLevel
  pub since : Option ℕ
  pub until : Option ℕ
  pub q : Option String
  pub limit : Option ℕ

abbrev pub at_least : Option LogLevel → LogLevel → Bool
at_least none l = true
at_least (some m) l = leb (rank m) (rank l)

abbrev pub not_before : Option ℕ → ℕ → Bool
not_before none t = true
not_before (some s) t = leb s t

abbrev pub not_after : Option ℕ → ℕ → Bool
not_after none t = true
not_after (some u) t = leb t u

-- `LIKE` of the substring on the message or the module, where there is one.
unfoldable pub contains : (String → String → Bool) → Option String → LogRecord → Bool
contains is_like none e = true
contains is_like (some q) e =
    str_eq q "" || (is_like q e.msg || elim e.component [ none ↦ false | some m ↦ is_like q m ])

unfoldable pub passes : (String → String → Bool) → LogQuery → LogRow → Bool
passes is_like query r =
    at_least query.level r.entry.level
    && (not_before query.since r.entry.time
        && (not_after query.until r.entry.time && contains is_like query.q r.entry))

abbrev pub limit_of : Option ℕ → ℕ
limit_of none = 200
limit_of (some n) = min (if ltb 0 n then n else 200) 500

unfoldable pub reverse_onto : List LogRow → List LogRow → List LogRow
reverse_onto [] acc = acc
reverse_onto (r ∷ rs) acc = reverse_onto rs (r ∷ acc)

-- `ORDER BY id DESC LIMIT ?`
unfoldable pub query_logs : (String → String → Bool) → Log → LogQuery → List LogRow
query_logs is_like log query =
    take (limit_of query.limit) (reverse_onto (filter_by (passes is_like query) log.rows) [])

-- The rows of an export, `ORDER BY id ASC LIMIT ?`, before they are printed.
unfoldable pub export_rows : (String → String → Bool) → Log → LogQuery → ℕ → List LogRow
export_rows is_like log query cap = take cap (filter_by (passes is_like query) log.rows)

unfoldable pub max_id : List LogRow → ℕ
max_id [] = 0
max_id (r ∷ rs) = max r.id (max_id rs)

abbrev pub is_young : ℕ → ℕ → LogRow → Bool
is_young now days r = leb now (r.entry.time + days * 86_400_000)

-- Both deletions: by age, and what lies `max_rows` keys or more below the newest.
unfoldable pub prune_logs : Log → ℕ → ℕ → ℕ → Log
prune_logs log now retention_days max_rows =
    let kept = filter_by (is_young now retention_days) log.rows in
    record log { rows = filter_by (λ r. ltb (max_id kept) (r.id + max_rows)) kept }
