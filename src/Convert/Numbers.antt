-- ===== src/Convert/Numbers.antt =====
-- convert.go: convertToInt and its siblings. Floats and package strconv are parameters.
use rainbowsquirrel.Base.{
  ℕ, ◌-◌, ◌^◌, not, ◌&&◌, ◌||◌, Bytes, pos, negsuc, of_u64, ltb, ◌==◌, if◌then◌else◌,
}
use rainbowsquirrel.Core.Errors.{unsupported_type}
use rainbowsquirrel.Core.Outcome.{Outcome, ok, fail, ◌>>=◌}
use rainbowsquirrel.Meta.Types.{
  GoType, ScalarKind, bool_kind, string_kind, int_kind, uint_kind, float_kind,
}
use rainbowsquirrel.Meta.Values.{
  Value, bool_value, int_value, uint_value, float_value, string_value,
}
use rainbowsquirrel.Convert.Cells.{
  DriverCell, int_cell, uint64_cell, uint_cell, small_uint_cell, float_cell, bool_cell, bytes_cell,
  string_cell, Floats, Parsers, set_int, set_uint, is_zero_number, bytes_as,
}

module _ (floats : Floats) (parsers : Parsers) where
  unfoldable pub parse_int_string : ℕ → Bytes → Outcome Value
  parse_int_string bits s = parsers.parse_int s bits >>= λ z. ok (int_value bits z)

  unfoldable pub parse_uint_string : ℕ → Bytes → Outcome Value
  parse_uint_string bits s = parsers.parse_uint s bits >>= λ n. ok (uint_value bits n)

  unfoldable pub parse_float_string : ℕ → Bytes → Outcome Value
  parse_float_string bits s = parsers.parse_float s bits >>= λ n. ok (float_value bits n)

  unfoldable pub parse_bool_string : Bytes → Outcome Value
  parse_bool_string s = parsers.parse_bool s >>= λ b. ok (bool_value b)

  unfoldable pub convert_to_int : ℕ → DriverCell → Outcome Value
  unfolding set_int parse_int_string
  convert_to_int bits (int_cell w z) = set_int bits z
  convert_to_int bits (uint64_cell n) =
      if ltb (2 ^ 63 - 1) n then fail unsupported_type else set_int bits (of_u64 n)
  convert_to_int bits (uint_cell n) = set_int bits (of_u64 n)
  convert_to_int bits (small_uint_cell w n) = set_int bits (pos n)
  convert_to_int bits (float_cell w n) =
      if w == 64 && floats.beyond_i64 n
      then fail unsupported_type
      else set_int bits (floats.to_int w n)
  convert_to_int bits (bytes_cell b) = parse_int_string bits b
  convert_to_int bits (string_cell s) = parse_int_string bits s
  convert_to_int bits c = fail unsupported_type

  unfoldable pub convert_to_uint : ℕ → DriverCell → Outcome Value
  unfolding set_uint parse_uint_string
  convert_to_uint bits (int_cell w (pos n)) = set_uint bits n
  convert_to_uint bits (int_cell w (negsuc n)) = fail unsupported_type
  convert_to_uint bits (uint64_cell n) = set_uint bits n
  convert_to_uint bits (uint_cell n) = set_uint bits n
  convert_to_uint bits (small_uint_cell w n) = set_uint bits n
  convert_to_uint bits (float_cell w n) =
      if floats.is_negative w n || (w == 64 && floats.beyond_u64 n)
      then fail unsupported_type
      else set_uint bits (floats.to_uint w n)
  convert_to_uint bits (bytes_cell b) = parse_uint_string bits b
  convert_to_uint bits (string_cell s) = parse_uint_string bits s
  convert_to_uint bits c = fail unsupported_type

  unfoldable pub set_float : ℕ → ℕ → Outcome Value
  set_float bits n =
      if floats.overflows bits n
      then fail unsupported_type
      else ok (float_value bits (floats.narrow bits n))

  -- Of the integer types the source names int64, int, int32, uint64 and uint.
  unfoldable pub convert_to_float : ℕ → DriverCell → Outcome Value
  unfolding set_float parse_float_string
  convert_to_float bits (float_cell w n) = set_float bits (floats.widen w n)
  convert_to_float bits (int_cell w z) =
      if w == 64 || w == 32 then set_float bits (floats.of_int z) else fail unsupported_type
  convert_to_float bits (uint64_cell n) = set_float bits (floats.of_int (pos n))
  convert_to_float bits (uint_cell n) = set_float bits (floats.of_int (pos n))
  convert_to_float bits (bytes_cell b) = parse_float_string bits b
  convert_to_float bits (string_cell s) = parse_float_string bits s
  convert_to_float bits c = fail unsupported_type

  -- Of the integer types the source names int64 and int.
  unfoldable pub convert_to_bool : DriverCell → Outcome Value
  unfolding is_zero_number parse_bool_string
  convert_to_bool (bool_cell b) = ok (bool_value b)
  convert_to_bool (int_cell w z) =
      if w == 64 then ok (bool_value (not (is_zero_number z))) else fail unsupported_type
  convert_to_bool (bytes_cell b) = parse_bool_string b
  convert_to_bool (string_cell s) = parse_bool_string s
  convert_to_bool c = fail unsupported_type

  unfoldable pub convert_to_string : DriverCell → Outcome Value
  convert_to_string (string_cell s) = ok (string_value s)
  convert_to_string (bytes_cell b) = ok (string_value b)
  convert_to_string c = fail unsupported_type

  -- `elem.SetBytes` on a slice with elements of the kind uint8.
  unfoldable pub convert_to_bytes : GoType → DriverCell → Outcome Value
  unfolding bytes_as
  convert_to_bytes t (bytes_cell b) = ok (bytes_as t b)
  convert_to_bytes t (string_cell s) = ok (bytes_as t s)
  convert_to_bytes t c = fail unsupported_type

  unfoldable pub convert_scalar : ScalarKind → DriverCell → Outcome Value
  unfolding convert_to_int convert_to_uint convert_to_float convert_to_bool convert_to_string
  convert_scalar string_kind c = convert_to_string c
  convert_scalar (int_kind bits) c = convert_to_int bits c
  convert_scalar (uint_kind bits) c = convert_to_uint bits c
  convert_scalar (float_kind bits) c = convert_to_float bits c
  convert_scalar bool_kind c = convert_to_bool c
