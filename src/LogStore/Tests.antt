-- ===== src/LogStore/Tests.antt =====
-- Records, queries and the rotation on concrete logs, after log-store.test.ts.
use open_smart_charge.Base.{
  ℕ, ◌≤◌, ◌≡◌, refl, Bool, true, false, Option, none, some, String, [], ◌∷◌, arith, filter_by,
  length, take, All, map,
}
use open_smart_charge.Base.Dict.{get}
use open_smart_charge.LogStore.{
  LogLevel, info, warn, error, text, number, object, bucket_level, level_of, first_label,
  extract_module, extract_err, extract_fields, LogRecord, record_time, pino_record_to_log, Log,
  insert_log, LogQuery, passes, contains, limit_of, reverse_onto, query_logs, export_rows, max_id,
  is_young, prune_logs,
}
use open_smart_charge.LogStore.Pages.{IsOrdered, prune_logs-query_logs}

abbrev no_date : String → Option ℕ
no_date s = none

lifted :
    pino_record_to_log no_date 7 (
      ("level", number 50 "50")
      ∷ ("msg", text "failed")
      ∷ ("charger", text "garage")
      ∷ ("err", object none (some "timeout") "")
      ∷ [])
    ≡ record {
      time = 7;
      level = error;
      component = some "charger:garage";
      msg = "failed";
      fields = some (("charger", text "garage") ∷ []);
      err = some "timeout";
    }
unfolding pino_record_to_log record_time bucket_level level_of extract_module first_label
    extract_fields extract_err get
lifted = refl

abbrev at : ℕ → LogLevel → LogRecord
at t l = record { time = t; level = l; component = none; msg = "m"; fields = none; err = none }

abbrev old_log : Log
old_log = record {
  rows =
      record { id = 2; entry = at 1_000 warn }
      ∷ record { id = 3; entry = at 90_000_000 info }
      ∷ record { id = 5; entry = at 95_000_000 error }
      ∷ [];
  last_id = 5;
}

abbrev warnings : LogQuery
warnings = record { level = some warn; since = none; until = none; q = none; limit = some 1 }

abbrev never : String → String → Bool
never q s = false

abbrev rotated : Log
rotated = prune_logs (insert_log old_log (at 96_000_000 warn)) 96_000_000 1 2

rotated_ids : map (λ r. r.id) rotated.rows ≡ 5 ∷ 6 ∷ []
unfolding prune_logs insert_log max_id
rotated_ids = refl

newest_first : map (λ r. r.id) (query_logs never rotated warnings) ≡ 6 ∷ []
unfolding query_logs passes contains reverse_onto prune_logs insert_log max_id
newest_first = refl

prune_logs-query_logs_example :
    let export = export_rows never rotated warnings 2 in
    IsOrdered rotated
    × (length rotated.rows ≤ 2)
    × All (λ r. is_young 96_000_000 1 r ≡ true) rotated.rows
    × (export ≡ filter_by (passes never warnings) rotated.rows)
    × (query_logs never rotated warnings ≡ take (limit_of warnings.limit) (reverse_onto export []))
    × (length (query_logs never rotated warnings) ≤ 500)
prune_logs-query_logs_example =
    prune_logs-query_logs never old_log (at 96_000_000 warn) warnings 96_000_000 1 2 2
      (
        (omega arith, (omega arith, (omega arith, tt))),
        (omega arith, (omega arith, (omega arith, tt))),
      )
      (omega arith)
