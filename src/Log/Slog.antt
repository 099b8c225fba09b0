-- ===== src/Log/Slog.antt =====
-- log/log.go: the plugin over log/slog. The logger writes what After hands it.
use rainbowsquirrel.Base.{
  ℕ, Bool, true, false, ◌&&◌, List, [], ◌∷◌, ◌++◌, Option, none, some, Bytes, codes, ℤ, pos, not,
  if◌then◌else◌,
}
use rainbowsquirrel.Core.Errors.{op_string}
use rainbowsquirrel.Log.Records.{
  LogLevel, info_level, warn_level, error_level, Attr, op_attr, query_attr, duration_attr,
  in_tx_attr, args_attr, error_attr, LogInfo, LogRecord, lt_int, join_words, split_fields,
}

pub record LogConfig : Type 0 where
  pub level : ℤ
  pub slow_threshold : ℤ
  pub with_query : Bool
  pub with_args : Bool

pub data LogOption : Type 0 where
  with_level with_slow_query_threshold : ℤ → LogOption
  with_query_option with_args_option : Bool → LogOption

unfoldable pub apply_log_option : LogOption → LogConfig → LogConfig
apply_log_option (with_level l) c = record c { level = l }
apply_log_option (with_slow_query_threshold d) c = record c { slow_threshold = d }
apply_log_option (with_query_option enabled) c = record c { with_query = enabled }
apply_log_option (with_args_option enabled) c = record c { with_args = enabled }

unfoldable pub apply_log_options : List LogOption → LogConfig → LogConfig
apply_log_options [] c = c
apply_log_options (o ∷ opts) c = apply_log_options opts (apply_log_option o c)

-- slog's numbers for the levels.
unfoldable pub slog_level : LogLevel → ℤ
slog_level info_level = pos 0
slog_level warn_level = pos 4
slog_level error_level = pos 8

-- The configuration that New makes.
unfoldable pub new_log : List LogOption → LogConfig
new_log opts = apply_log_options opts (record {
  level = slog_level info_level;
  slow_threshold = pos 0;
  with_query = true;
  with_args = false;
})

module _ (is_space : ℕ → Bool) where
  unfoldable pub compact_query : Bytes → Bytes
  unfolding split_fields join_words
  compact_query s = join_words (split_fields is_space s)

  module _ {Any : Type 0} where
    unfoldable pub record_level : LogConfig → LogInfo Any → LogLevel
    record_level cfg info = elim info.err [
      | some e ↦ error_level
      | none ↦
          if lt_int (pos 0) cfg.slow_threshold && not (lt_int info.duration cfg.slow_threshold)
          then warn_level
          else info_level
    ]

    unfoldable pub record_attrs : LogConfig → LogInfo Any → List (Attr Any)
    unfolding compact_query
    record_attrs cfg info =
        op_attr (op_string info.op)
        ∷ duration_attr info.duration
        ∷ in_tx_attr info.in_tx
        ∷ ((if cfg.with_query then query_attr (compact_query info.query) ∷ [] else [])
            ++ ((if cfg.with_args then args_attr info.bound_args ∷ [] else [])
                ++ (elim info.err [ none ↦ [] | some e ↦ error_attr e ∷ [] ])))

    -- What After hands to the logger, if anything; it returns no error.
    unfoldable pub log_after : LogConfig → LogInfo Any → Option (LogRecord Any)
    unfolding record_level record_attrs slog_level
    log_after cfg info =
        let level = record_level cfg info in
        if lt_int (slog_level level) cfg.level
        then none
        else some (record {
          level = level;
          message = codes "rainbowsquirrel " ++ op_string info.op;
          attrs = record_attrs cfg info;
        })
