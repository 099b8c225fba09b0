-- ===== src/Convert/Assign.antt =====
-- convert.go: convertAssign to an element of a type, with builtinConvert and assignNull. time.Parse,
-- the Scan methods of targets and the registered converters are parameters.
use rainbowsquirrel.Base.{◌||◌, Option, none, some, Bytes, ℤ, if◌then◌else◌}
use rainbowsquirrel.Core.Errors.{unsupported_type, null_not_allowed}
use rainbowsquirrel.Core.Outcome.{Outcome, ok, fail, ◌>>=◌}
use rainbowsquirrel.Core.Settings.{Settings}
use rainbowsquirrel.Meta.Types.{
  GoType, scalar_type, time_type, pointer_type, slice_type, named, is_byte, is_pointer,
}
use rainbowsquirrel.Meta.Values.{Value, time_value, pointer, named_value, zero_value}
use rainbowsquirrel.Meta.Collect.{scans}
use rainbowsquirrel.Convert.Cells.{
  DriverCell, null_cell, bytes_cell, string_cell, time_cell, Floats, Parsers, is_assignable, assign,
}
use rainbowsquirrel.Convert.Numbers.{convert_scalar, convert_to_bytes}

module _ {Location : Type 0} (floats : Floats) (parsers : Parsers)
    (parse_time : Bytes → Bytes → Option Location → Outcome (ℤ × ℤ))
    (scan : GoType → DriverCell → Outcome Value)
    (converter : GoType → Option (DriverCell → Outcome (Option Value)))
    (cfg : Settings Location) where
  -- time.ParseInLocation with a location, time.Parse without one.
  unfoldable pub parse_time_string : Bytes → Outcome Value
  parse_time_string s =
      parse_time cfg.time_layout s cfg.time_location >>= λ t. ok (time_value t.0 t.1)

  unfoldable pub convert_to_time : DriverCell → Outcome Value
  unfolding parse_time_string
  convert_to_time (time_cell nano offset) = ok (time_value nano offset)
  convert_to_time (bytes_cell b) = parse_time_string b
  convert_to_time (string_cell s) = parse_time_string s
  convert_to_time c = fail unsupported_type

  -- By the element's kind; a time must be time.Time itself.
  unfoldable pub builtin_convert : GoType → DriverCell → Outcome Value
  unfolding convert_scalar convert_to_bytes convert_to_time
  builtin_convert (scalar_type k) c = convert_scalar floats parsers k c
  builtin_convert (slice_type t) c =
      if is_byte t then convert_to_bytes floats parsers t c else fail unsupported_type
  builtin_convert time_type c = convert_to_time c
  builtin_convert (named m time_type) c = fail unsupported_type
  builtin_convert (named m t) c = builtin_convert t c >>= λ v. ok (named_value m v)
  builtin_convert t c = fail unsupported_type

  unfoldable pub assign_null : GoType → Outcome Value
  assign_null t =
      if is_pointer t || cfg.null_to_zero then ok (zero_value t) else fail null_not_allowed

  -- A converter's nil result counts as NULL.
  unfoldable pub run_converter :
      GoType → (DriverCell → Outcome (Option Value)) → DriverCell → Outcome Value
  unfolding assign_null
  run_converter t f c = f c >>= λ v. elim v [ none ↦ assign_null t | some w ↦ ok w ]

  -- The steps before the conversion that follows pointers or the kind, which is `deeper`.
  unfoldable pub convert_first : GoType → DriverCell → Outcome Value → Outcome Value
  unfolding assign_null is_assignable assign run_converter
  convert_first t null_cell deeper = if scans t then scan t null_cell else assign_null t
  convert_first t c deeper =
      if scans t
      then scan t c
      else if is_assignable c t
      then ok (assign c t)
      else elim (converter t) [ none ↦ deeper | some f ↦ run_converter t f c ]

  -- convertAssign to an element of type `t`.
  unfoldable pub convert_assign : GoType → DriverCell → Outcome Value
  unfolding convert_first builtin_convert
  convert_assign (pointer_type t) c =
      convert_first (pointer_type t) c (convert_assign t c >>= λ v. ok (pointer v))
  convert_assign (named m (pointer_type t)) c =
      convert_first (named m (pointer_type t)) c
        (convert_assign t c >>= λ v. ok (named_value m (pointer v)))
  convert_assign t c = convert_first t c (builtin_convert t c)
