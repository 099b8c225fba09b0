-- ===== src/Log/Quiet.antt =====
-- log/log.go and log/rainbowlog/rainbowlog.go: After and the arguments, and the two plugins side by
-- side.
use rainbowsquirrel.Base.{ℕ, ◌≡◌, refl, arith, Bool, true, false, List, [], ◌∷◌, map, ℤ, All}
use mathlib.Core.Option
use rainbowsquirrel.Log.Records.{
  LogLevel, Attr, duration_attr, duration_in, error_attr, err_field, LogInfo, LogRecord, lt_int,
}
use rainbowsquirrel.Log.Slog
use rainbowsquirrel.Log.Slog.{
  LogOption, with_level, with_slow_query_threshold, with_query_option, with_args_option, slog_level,
  log_after, record_level, record_attrs,
}
use rainbowsquirrel.Log.Rainbowlog
use rainbowsquirrel.Log.Rainbowlog.{rainbowlog_after, choose_level, record_fields}

-- The option does not turn the arguments on.
abbrev pub HidesArgs : LogOption → Type 0
HidesArgs (with_args_option true) = ⊥
HidesArgs _ = Unit

options-keep :
    (opts : List LogOption) (c : Slog.LogConfig)
    → All HidesArgs opts
    → c.with_args ≡ false
    → (Slog.apply_log_options opts c).with_args ≡ false
unfolding Slog.apply_log_options Slog.apply_log_option
options-keep [] c h e = e
options-keep (with_level l ∷ opts) c h e = options-keep opts (record c { level = l }) h.1 e
options-keep (with_slow_query_threshold d ∷ opts) c h e =
    options-keep opts (record c { slow_threshold = d }) h.1 e
options-keep (with_query_option b ∷ opts) c h e =
    options-keep opts (record c { with_query = b }) h.1 e
options-keep (with_args_option true ∷ opts) c h e = absurd h.0
options-keep (with_args_option false ∷ opts) c h e =
    options-keep opts (record c { with_args = false }) h.1 refl

new_log-hides : (opts : List LogOption) → All HidesArgs opts → (Slog.new_log opts).with_args ≡ false
unfolding Slog.new_log
new_log-hides opts h = options-keep opts _ h refl

module _ (is_space : ℕ → Bool) {Any : Type 0} where
  -- Unless an option turns the arguments on, what the plugin writes does not depend on them: two
  -- operations that differ in their arguments only give the same record, or none.
  pub log_after-args :
      (opts : List LogOption) (info : LogInfo Any) (args : List Any)
      → All HidesArgs opts
      → log_after is_space (Slog.new_log opts) (record info { bound_args = args })
        ≡ log_after is_space (Slog.new_log opts) info
  unfolding log_after record_attrs record_level
  log_after-args opts info args h = let off = new_log-hides opts h in rw off refl

-- A configuration of the one plugin that is the other's but for the threshold.
abbrev pub Matches : Rainbowlog.LogConfig → Slog.LogConfig → Type 0
Matches r s =
    (r.slow_threshold ≡ s.slow_threshold)
    × (r.with_query ≡ s.with_query)
    × (r.with_args ≡ s.with_args)

-- The field that the plugin over rainbowlog writes for an attribute of the other: a duration in
-- milliseconds, an error by Err, and all else as it is.
unfoldable pub as_field : {Any : Type 0} → Attr Any → Attr Any
as_field (duration_attr d) = duration_in 1000000 d
as_field (error_attr e) = err_field e
as_field a = a

-- The level and the attributes of a record.
abbrev pub shown : {Any : Type 0} → LogRecord Any → LogLevel × List (Attr Any)
shown r = (r.level, r.attrs)

abbrev pub shown_as_fields : {Any : Type 0} → LogRecord Any → LogLevel × List (Attr Any)
shown_as_fields r = (r.level, map as_field r.attrs)

module _ (rank : LogLevel → ℤ) (is_space : ℕ → Bool) {Any : Type 0} where
  record_fields-record_attrs :
      (r : Rainbowlog.LogConfig) (s : Slog.LogConfig) (info : LogInfo Any)
      → Matches r s
      → record_fields rank is_space r info ≡ map as_field (record_attrs is_space s info)
  unfolding record_fields record_attrs as_field Rainbowlog.compact_query Slog.compact_query
  record_fields-record_attrs r s info same = ground arith

  choose_level-record_level :
      (r : Rainbowlog.LogConfig) (s : Slog.LogConfig) (info : LogInfo Any)
      → Matches r s
      → choose_level rank is_space r info ≡ record_level is_space s info
  unfolding choose_level record_level
  choose_level-record_level r s info same = ground arith

  -- If the two plugins agree on the slow threshold and on what is shown, and their thresholds cut
  -- the levels at the same place, then they write a record for the same operations, with the same
  -- level and the same attributes in the same order, but that the one over rainbowlog gives the
  -- duration with a unit of a millisecond and the error by Err.
  pub rainbowlog_after-log_after :
      (r : Rainbowlog.LogConfig) (s : Slog.LogConfig) (info : LogInfo Any)
      → Matches r s
      → ((l : LogLevel) → lt_int (rank l) r.level ≡ lt_int (slog_level l) s.level)
      → Option.map shown (rainbowlog_after rank is_space r info)
        ≡ Option.map shown_as_fields (log_after is_space s info)
  unfolding rainbowlog_after log_after
  rainbowlog_after-log_after r s info same cut = ground (
    arith,
    choose_level-record_level r s info same,
    cut (record_level is_space s info),
    record_fields-record_attrs r s info same,
  )
