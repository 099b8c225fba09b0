-- ===== src/Log/Records.antt =====
-- log/log.go and log/rainbowlog/rainbowlog.go: what both plugins read and write. Characters are code
-- points, and unicode.IsSpace is a parameter; durations are in nanoseconds.
use rainbowsquirrel.Base.{
  ℕ, Bool, true, false, List, [], ◌∷◌, ◌++◌, Option, Bytes, ℤ, pos, negsuc, ltb, if◌then◌else◌,
}
use rainbowsquirrel.Bind.Parser.{is_empty}
use rainbowsquirrel.Core.Errors.{Op, GoError}

-- The levels that After chooses from.
pub data LogLevel : Type 0 where
  info_level warn_level error_level : LogLevel

pub data Attr (Any : Type 0) : Type 0 where
  op_attr query_attr : Bytes → Attr Any
  duration_attr : ℤ → Attr Any
  in_tx_attr : Bool → Attr Any
  args_attr : List Any → Attr Any
  error_attr : GoError → Attr Any
  -- Rainbowlog's Dur, with its unit in nanoseconds, and its Err.
  duration_in : ℕ → ℤ → Attr Any
  err_field : GoError → Attr Any

-- What After reads of ExecInfo.
pub record LogInfo (Any : Type 0) : Type 0 where
  pub op : Op
  pub query : Bytes
  pub bound_args : List Any
  pub duration : ℤ
  pub in_tx : Bool
  pub err : Option GoError

pub record LogRecord (Any : Type 0) : Type 0 where
  pub level : LogLevel
  pub message : Bytes
  pub attrs : List (Attr Any)

-- `a < b`
unfoldable pub lt_int : ℤ → ℤ → Bool
lt_int (pos a) (pos b) = ltb a b
lt_int (pos a) (negsuc b) = false
lt_int (negsuc a) (pos b) = true
lt_int (negsuc a) (negsuc b) = ltb b a

-- `strings.Join(words, " ")`
unfoldable pub join_words : List Bytes → Bytes
join_words [] = []
join_words (w ∷ []) = w
join_words (w ∷ v ∷ words) = w ++ (b' ' ∷ join_words (v ∷ words))

module _ (is_space : ℕ → Bool) where
  -- strings.Fields behind a word that was begun.
  unfoldable pub fields_loop : Bytes → Bytes → List Bytes
  fields_loop word [] = if is_empty word then [] else word ∷ []
  fields_loop word (c ∷ s) =
      let ended = fields_loop [] s in
      let longer = fields_loop (word ++ (c ∷ [])) s in
      if is_space c then (if is_empty word then ended else word ∷ ended) else longer

  unfoldable pub split_fields : Bytes → List Bytes
  unfolding fields_loop
  split_fields s = fields_loop [] s
