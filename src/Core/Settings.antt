-- ===== src/Core/Settings.antt =====
-- config.go: the settings of New, the call options of the core, and snakeCase; core.go: New, whose
-- test of the driver is the argument `is_postgres`. Characters are code points, and Go's package
-- unicode is a parameter.
use rainbowsquirrel.Base.{
  ℕ, ◌≡◌, refl, ap, ◌∙◌, arith, Bool, true, false, ◌&&◌, ◌||◌, List, [], ◌∷◌, ◌++◌, map, Option,
  none, some, Bytes, codes, All, ◌==◌, if◌then◌else◌,
}
use rainbowsquirrel.Bind.Rebind.{PlaceholderStyle, question, dollar}

-- The fields that do not change after New.
pub record Settings (Location : Type 0) : Type 0 where
  pub tag_name : Bytes
  pub name_mapper : List ℕ → List ℕ
  pub placeholder : PlaceholderStyle
  pub strict_mode : Bool
  pub slice_expansion : Bool
  pub null_to_zero : Bool
  pub time_location : Option Location
  pub time_layout : Bytes
  pub map_key_func : Bytes → Bytes

pub data ConfigOption (Location : Type 0) : Type 0 where
  with_tag_name : Bytes → ConfigOption Location
  with_name_mapper : (List ℕ → List ℕ) → ConfigOption Location
  with_placeholder : PlaceholderStyle → ConfigOption Location
  with_strict_mode : Bool → ConfigOption Location
  with_slice_expansion : Bool → ConfigOption Location
  with_null_to_zero_value : Bool → ConfigOption Location
  with_time_location : Option Location → ConfigOption Location
  with_time_layout : Bytes → ConfigOption Location
  with_map_key_func : (Bytes → Bytes) → ConfigOption Location

-- The call options that New's caller can pass; the others belong to plugins.
pub data CoreCallOption : Type 0 where
  strict_mode_call : Bool → CoreCallOption
  plugin_option : CoreCallOption

unfoldable pub apply_call_options : List CoreCallOption → Option Bool → Option Bool
apply_call_options [] strict = strict
apply_call_options (strict_mode_call v ∷ opts) strict = apply_call_options opts (some v)
apply_call_options (plugin_option ∷ opts) strict = apply_call_options opts strict

module _ (is_upper is_lower is_digit : ℕ → Bool) (to_lower : ℕ → ℕ) where
  -- Whether an underscore stands before an upper-case letter, by the rune before it and the rest.
  unfoldable pub starts_word : Option ℕ → ℕ → List ℕ → Bool
  starts_word none r rest = false
  starts_word (some prev) r [] = is_lower prev || is_digit prev
  starts_word (some prev) r (next ∷ rest) =
      is_lower prev || is_digit prev || (is_upper prev && is_lower next)

  -- The runes from the one behind `prev` on.
  unfoldable pub snake_loop : Option ℕ → List ℕ → List ℕ
  snake_loop prev [] = []
  snake_loop prev (r ∷ rest) =
      let tail = snake_loop (some r) rest in
      if is_upper r
      then (if starts_word prev r rest then b'_' ∷ to_lower r ∷ tail else to_lower r ∷ tail)
      else r ∷ tail

  unfoldable pub snake_case : List ℕ → List ℕ
  snake_case s = snake_loop none s

  -- The rune in lower case if it is an upper-case letter.
  unfoldable pub lowered : ℕ → ℕ
  lowered r = if is_upper r then to_lower r else r

  unfoldable pub without_underscores : List ℕ → List ℕ
  without_underscores [] = []
  without_underscores (r ∷ s) =
      let rest = without_underscores s in if r == b'_' then rest else r ∷ rest

  snake_loop-without_underscores :
      (prev : Option ℕ) (s : List ℕ)
      → without_underscores (snake_loop prev s) ≡ without_underscores (map lowered s)
  unfolding snake_loop without_underscores lowered
  snake_loop-without_underscores prev [] = refl
  snake_loop-without_underscores prev (r ∷ rest) =
      ground (arith, snake_loop-without_underscores (some r) rest)

  -- Underscores apart, snakeCase gives the letters of the name in order, the upper-case ones in
  -- lower case: it inserts underscores and nothing else.
  pub snake_case-without_underscores :
      (s : List ℕ) → without_underscores (snake_case s) ≡ without_underscores (map lowered s)
  unfolding snake_case
  snake_case-without_underscores s = snake_loop-without_underscores none s

  module _ {Location : Type 0} where
    unfoldable pub apply_option : ConfigOption Location → Settings Location → Settings Location
    apply_option (with_tag_name name) c = record c { tag_name = name }
    apply_option (with_name_mapper m) c = record c { name_mapper = m }
    apply_option (with_placeholder p) c = record c { placeholder = p }
    apply_option (with_strict_mode b) c = record c { strict_mode = b }
    apply_option (with_slice_expansion b) c = record c { slice_expansion = b }
    apply_option (with_null_to_zero_value b) c = record c { null_to_zero = b }
    apply_option (with_time_location l) c = record c { time_location = l }
    apply_option (with_time_layout l) c = record c { time_layout = l }
    apply_option (with_map_key_func f) c = record c { map_key_func = f }

    unfoldable pub apply_options :
        List (ConfigOption Location) → Settings Location → Settings Location
    apply_options [] c = c
    apply_options (o ∷ opts) c = apply_options opts (apply_option o c)

    unfoldable pub default_config : Settings Location
    default_config = record {
      tag_name = codes "db";
      name_mapper = snake_case;
      placeholder = question;
      strict_mode = false;
      slice_expansion = false;
      null_to_zero = true;
      time_location = none;
      time_layout = codes "2006-01-02T15:04:05.999999999Z07:00";
      map_key_func = λ s. s;
    }

    unfoldable pub new_config : Bool → List (ConfigOption Location) → Settings Location
    new_config is_postgres opts =
        let start = default_config in
        apply_options opts (if is_postgres then record start { placeholder = dollar } else start)

    -- The option does not set the placeholder style.
    abbrev pub OtherOption : ConfigOption Location → Type 0
    OtherOption (with_placeholder p) = ⊥
    OtherOption _ = Unit

    others_keep :
        (opts : List (ConfigOption Location)) (c : Settings Location)
        → All OtherOption opts
        → (apply_options opts c).placeholder ≡ c.placeholder
    unfolding apply_options apply_option
    others_keep [] c h = refl
    others_keep (with_placeholder p ∷ opts) c h = absurd h.0
    others_keep (o ∷ opts) c h = others_keep opts (apply_option o c) h.1

    append-apply_options :
        (xs ys : List (ConfigOption Location)) (c : Settings Location)
        → apply_options (xs ++ ys) c ≡ apply_options ys (apply_options xs c)
    unfolding apply_options
    append-apply_options [] ys c = refl
    append-apply_options (x ∷ xs) ys c = append-apply_options xs ys (apply_option x c)

    last_placeholder :
        (opts others : List (ConfigOption Location)) (p : PlaceholderStyle) (c : Settings Location)
        → All OtherOption others
        → (apply_options (opts ++ (with_placeholder p ∷ others)) c).placeholder ≡ p
    unfolding apply_options apply_option
    last_placeholder opts others p c h =
        let before = apply_options opts c in
        ap (λ d. d.placeholder) (append-apply_options opts (with_placeholder p ∷ others) c)
        ∙ others_keep others (record before { placeholder = p }) h

    -- The last WithPlaceholder decides the style, whatever driver was detected; without one it is
    -- the dollar style for PostgreSQL and the question mark otherwise.
    pub new_config-placeholder :
        (is_postgres : Bool) (opts others : List (ConfigOption Location)) (p : PlaceholderStyle)
        → All OtherOption others
        → ((new_config is_postgres (opts ++ (with_placeholder p ∷ others))).placeholder ≡ p)
          × ((new_config is_postgres others).placeholder
              ≡ (if is_postgres then dollar else question))
    unfolding new_config apply_options apply_option default_config
    new_config-placeholder true opts others p h =
        let start = record default_config { placeholder = dollar } in
        (last_placeholder opts others p start h, others_keep others start h)
    new_config-placeholder false opts others p h =
        (last_placeholder opts others p default_config h, others_keep others default_config h)
