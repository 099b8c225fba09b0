-- ===== src/Convert/Cells.antt =====
-- convert.go: the cells that are converted, what the conversions ask of other packages, and how a
-- value is set. Errors are the sentinels, without the text around them.
use rainbowsquirrel.Base.{
  ℕ, ◌-◌, ◌^◌, Bool, true, false, [], ◌∷◌, Bytes, ℤ, pos, negsuc, ltb, ◌==◌, if◌then◌else◌,
}
use rainbowsquirrel.Core.Errors.{unsupported_type}
use rainbowsquirrel.Core.Outcome.{Outcome, ok, fail}
use rainbowsquirrel.Meta.Types.{
  GoType, scalar_type, time_type, interface_type, slice_type, named, bool_kind, string_kind,
  int_kind, uint_kind, float_kind,
}
use rainbowsquirrel.Meta.Values.{
  Value, bool_value, int_value, uint_value, float_value, string_value, time_value, bytes_value,
  named_value, nil_value, slice_value, Values, no_values, value_cons,
}

-- A cell: the types that driver.Value allows and the others that the conversions name. `int_cell`
-- is of int8 to int64 with its width, `uint_cell` of uint, `small_uint_cell` of uint8, uint16 or
-- uint32; floats are bit patterns with their width. A cell of int, which no driver gives, is left
-- out.
pub data DriverCell : Type 0 where
  null_cell : DriverCell
  int_cell : ℕ → ℤ → DriverCell
  uint64_cell uint_cell : ℕ → DriverCell
  small_uint_cell : ℕ → ℕ → DriverCell
  float_cell : ℕ → ℕ → DriverCell
  bool_cell : Bool → DriverCell
  bytes_cell string_cell : Bytes → DriverCell
  time_cell : ℤ → ℤ → DriverCell

-- What the conversions ask of floats: the comparisons with the bounds of int64 and uint64, the
-- conversions, and OverflowFloat, which takes a float64.
pub record Floats : Type 0 where
  pub beyond_i64 : ℕ → Bool
  pub beyond_u64 : ℕ → Bool
  pub is_negative : ℕ → ℕ → Bool
  pub to_int : ℕ → ℕ → ℤ
  pub to_uint : ℕ → ℕ → ℕ
  pub widen : ℕ → ℕ → ℕ
  pub of_int : ℤ → ℕ
  pub overflows : ℕ → ℕ → Bool
  pub narrow : ℕ → ℕ → ℕ

-- ParseInt, ParseUint and ParseFloat with the base 10 and a width, and ParseBool.
pub record Parsers : Type 0 where
  pub parse_int : Bytes → ℕ → Outcome ℤ
  pub parse_uint : Bytes → ℕ → Outcome ℕ
  pub parse_float : Bytes → ℕ → Outcome ℕ
  pub parse_bool : Bytes → Outcome Bool

-- The cell as a value of an interface type.
unfoldable pub cell_value : DriverCell → Value
cell_value null_cell = nil_value
cell_value (int_cell bits z) = int_value bits z
cell_value (uint64_cell n) = uint_value 64 n
cell_value (uint_cell n) = uint_value 64 n
cell_value (small_uint_cell bits n) = uint_value bits n
cell_value (float_cell bits n) = float_value bits n
cell_value (bool_cell b) = bool_value b
cell_value (bytes_cell b) = bytes_value b
cell_value (string_cell s) = string_value s
cell_value (time_cell nano offset) = time_value nano offset

-- elem.OverflowInt and elem.OverflowUint, negated.
unfoldable pub fits_int : ℕ → ℤ → Bool
fits_int bits (pos n) = ltb n (2 ^ (bits - 1))
fits_int bits (negsuc n) = ltb n (2 ^ (bits - 1))

unfoldable pub fits_uint : ℕ → ℕ → Bool
fits_uint bits n = ltb n (2 ^ bits)

-- `elem.OverflowInt(i)`, then `elem.SetInt(i)`.
unfoldable pub set_int : ℕ → ℤ → Outcome Value
unfolding fits_int
set_int bits z = if fits_int bits z then ok (int_value bits z) else fail unsupported_type

unfoldable pub set_uint : ℕ → ℕ → Outcome Value
unfolding fits_uint
set_uint bits n = if fits_uint bits n then ok (uint_value bits n) else fail unsupported_type

-- The cell's type is the element's type, or can be assigned to it: anything to an interface, and
-- []byte to a type defined by it. A uint is of no scalar type here: a target of that type is of a
-- type defined by uint64, and a uint has the way through the registry and the conversions.
unfoldable pub is_assignable : DriverCell → GoType → Bool
is_assignable c interface_type = true
is_assignable (int_cell bits z) (scalar_type (int_kind w)) = bits == w
is_assignable (uint64_cell n) (scalar_type (uint_kind w)) = w == 64
is_assignable (small_uint_cell bits n) (scalar_type (uint_kind w)) = bits == w
is_assignable (float_cell bits n) (scalar_type (float_kind w)) = bits == w
is_assignable (bool_cell b) (scalar_type bool_kind) = true
is_assignable (string_cell s) (scalar_type string_kind) = true
is_assignable (bytes_cell b) (slice_type (scalar_type (uint_kind w))) = w == 8
is_assignable (bytes_cell b) (named m (slice_type (scalar_type (uint_kind w)))) = w == 8
is_assignable (time_cell nano offset) time_type = true
is_assignable c t = false

unfoldable pub assign : DriverCell → GoType → Value
unfolding cell_value
assign c (named m t) = named_value m (cell_value c)
assign c t = cell_value c

unfoldable pub is_zero_number : ℤ → Bool
is_zero_number (pos n) = n == 0
is_zero_number (negsuc n) = false

-- Bytes as a slice with elements of type `t`, whose kind is uint8.
unfoldable pub byte_element : GoType → ℕ → Value
byte_element (named m t) n = named_value m (byte_element t n)
byte_element t n = uint_value 8 n

unfoldable pub byte_elements : GoType → Bytes → Values
unfolding byte_element
byte_elements t [] = no_values
byte_elements t (n ∷ b) = value_cons (byte_element t n) (byte_elements t b)

unfoldable pub bytes_as : GoType → Bytes → Value
unfolding byte_elements
bytes_as (named m t) b = slice_value (named m t) (byte_elements (named m t) b)
bytes_as t b = bytes_value b
