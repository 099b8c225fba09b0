-- ===== src/Tests/Logging.antt =====
-- log/log.go and log/rainbowlog/rainbowlog.go on one operation.
use rainbowsquirrel.Base.{ℕ, ◌≡◌, refl, Bool, true, false, [], ◌∷◌, some, codes, pos, ◌==◌, ◌||◌}
use mathlib.Core.Option
use rainbowsquirrel.Core.Errors.{op_get, no_rows}
use rainbowsquirrel.Log.Records.{LogInfo}
use rainbowsquirrel.Log.Slog
use rainbowsquirrel.Log.Slog.{compact_query, with_level, with_args_option, log_after, slog_level}
use rainbowsquirrel.Log.Rainbowlog
use rainbowsquirrel.Log.Rainbowlog.{rainbowlog_after}
use rainbowsquirrel.Log.Compact.{ink, squeeze, compact_query_twice}
use rainbowsquirrel.Log.Quiet.{shown, shown_as_fields, log_after-args, rainbowlog_after-log_after}

abbrev blank : ℕ → Bool
blank c = c == b' ' || (c == 10)

abbrev info : LogInfo ℕ
info = record {
  op = op_get;
  query = codes " a  b ";
  bound_args = 7 ∷ [];
  duration = pos 20;
  in_tx = false;
  err = some no_rows;
}

compact_query_twice_example :
    (ink blank (compact_query blank (codes " a  b ")) ≡ ink blank (codes " a  b "))
    × (compact_query blank (codes " a  b ") ≡ squeeze blank false false (codes " a  b "))
    × (compact_query blank (compact_query blank (codes " a  b "))
        ≡ compact_query blank (codes " a  b "))
compact_query_twice_example = compact_query_twice blank refl (codes " a  b ")

log_after-args_example :
    log_after blank
      (Slog.new_log (with_level (pos 4) ∷ with_args_option false ∷ []))
      (record info { bound_args = 8 ∷ [] })
    ≡ log_after blank (Slog.new_log (with_level (pos 4) ∷ with_args_option false ∷ [])) info
log_after-args_example =
    log_after-args blank (with_level (pos 4) ∷ with_args_option false ∷ []) info (8 ∷ [])
      (tt, (tt, tt))

abbrev slog_config : Slog.LogConfig
slog_config = record {
  level = pos 4;
  slow_threshold = pos 10;
  with_query = true;
  with_args = false;
}

abbrev rainbow_config : Rainbowlog.LogConfig
rainbow_config = record {
  level = pos 4;
  slow_threshold = pos 10;
  with_query = true;
  with_args = false;
}

rainbowlog_after-log_after_example :
    Option.map shown (rainbowlog_after slog_level blank rainbow_config info)
    ≡ Option.map shown_as_fields (log_after blank slog_config info)
rainbowlog_after-log_after_example =
    rainbowlog_after-log_after slog_level blank rainbow_config slog_config info (refl, refl, refl)
      (λ l. refl)
