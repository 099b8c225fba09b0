-- ===== src/Log/Rainbowlog.antt =====
-- log/rainbowlog/rainbowlog.go: the plugin over rainbowlog, whose numbers for the levels are the
-- argument `rank`. A record of it is given the label where slog has a message.
use rainbowsquirrel.Base.{
  ℕ, Bool, true, false, ◌&&◌, List, [], ◌∷◌, ◌++◌, Option, none, some, Bytes, codes, ℤ, pos, not,
  if◌then◌else◌,
}
use rainbowsquirrel.Core.Errors.{op_string}
use rainbowsquirrel.Log.Records.{
  LogLevel, info_level, warn_level, error_level, Attr, op_attr, query_attr, duration_in, in_tx_attr,
  args_attr, err_field, LogInfo, LogRecord, lt_int, join_words, split_fields,
}

pub record LogConfig : Type 0 where
  pub level : ℤ
  pub slow_threshold : ℤ
  pub with_query : Bool
  pub with_args : Bool

pub data LogOption : Type 0 where
  with_level with_slow_query_threshold : ℤ → LogOption
  with_query_option with_args_option : Bool → LogOption

unfoldable pub apply_log_option : LogOption → LogConfig → LogConfig
apply_log_option (with_level l) c = record c { level = l }
apply_log_option (with_slow_query_threshold d) c = record c { slow_threshold = d }
apply_log_option (with_query_option enabled) c = record c { with_query = enabled }
apply_log_option (with_args_option enabled) c = record c { with_args = enabled }

unfoldable pub apply_log_options : List LogOption → LogConfig → LogConfig
apply_log_options [] c = c
apply_log_options (o ∷ opts) c = apply_log_options opts (apply_log_option o c)

unfoldable pub new_log : (LogLevel → ℤ) → List LogOption → LogConfig
new_log rank opts = apply_log_options opts (record {
  level = rank info_level;
  slow_threshold = pos 0;
  with_query = true;
  with_args = false;
})

unfoldable pub compact_query : (ℕ → Bool) → Bytes → Bytes
unfolding split_fields join_words
compact_query is_space s = join_words (split_fields is_space s)

-- `time.Millisecond`
abbrev pub millisecond : ℕ
millisecond = 1000000

module _ (rank : LogLevel → ℤ) (is_space : ℕ → Bool) {Any : Type 0} where
  unfoldable pub choose_level : LogConfig → LogInfo Any → LogLevel
  choose_level cfg info = elim info.err [
    | some e ↦ error_level
    | none ↦
        if lt_int (pos 0) cfg.slow_threshold && not (lt_int info.duration cfg.slow_threshold)
        then warn_level
        else info_level
  ]

  -- The fields in the order in which the record gets them.
  unfoldable pub record_fields : LogConfig → LogInfo Any → List (Attr Any)
  unfolding compact_query
  record_fields cfg info =
      let first =
        op_attr (op_string info.op)
        ∷ duration_in millisecond info.duration
        ∷ in_tx_attr info.in_tx
        ∷ [] in
      let second =
        if cfg.with_query
        then first ++ (query_attr (compact_query is_space info.query) ∷ [])
        else first in
      let third = if cfg.with_args then second ++ (args_attr info.bound_args ∷ []) else second in
      elim info.err [ none ↦ third | some e ↦ third ++ (err_field e ∷ []) ]

  unfoldable pub rainbowlog_after : LogConfig → LogInfo Any → Option (LogRecord Any)
  unfolding choose_level record_fields
  rainbowlog_after cfg info =
      let level = choose_level cfg info in
      if lt_int (rank level) cfg.level
      then none
      else some (record {
        level = level;
        message = codes "rainbowsquirrel";
        attrs = record_fields cfg info;
      })
