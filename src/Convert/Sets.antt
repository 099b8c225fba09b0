-- ===== src/Convert/Sets.antt =====
-- convert.go: the conversions of scalars and the types of what they set.
use rainbowsquirrel.Base.{
  ℕ, ltb, ◌^◌, ◌-◌, of_u64, pos, negsuc, ◌≡◌, refl, arith, Bool, true, false, Bytes, ℤ,
  if◌then◌else◌,
}
use rainbowsquirrel.Core.Errors.{GoError, unsupported_type}
use rainbowsquirrel.Core.Outcome.{Outcome, ok, fail, panic, ◌>>=◌}
use rainbowsquirrel.Meta.Types.{
  GoType, ScalarKind, scalar_type, slice_type, bool_kind, string_kind, int_kind, uint_kind,
  float_kind, is_byte,
}
use rainbowsquirrel.Meta.Values.{Value}
use rainbowsquirrel.Meta.Typing.{
  HasType, InSigned, InUnsigned, bool_typed, string_typed, int_typed, uint_typed, float_typed,
}
use rainbowsquirrel.Convert.Cells.{
  DriverCell, null_cell, int_cell, uint64_cell, uint_cell, small_uint_cell, float_cell, bool_cell,
  bytes_cell, string_cell, Floats, Parsers, fits_int, fits_uint, set_int, set_uint,
}
use rainbowsquirrel.Convert.Numbers.{
  parse_int_string, parse_uint_string, parse_float_string, parse_bool_string, convert_to_int,
  convert_to_uint, set_float, convert_to_float, convert_to_bool, convert_to_string,
  convert_to_bytes, convert_scalar,
}
use rainbowsquirrel.Convert.Targets.{IsCell, bytes_as-HasType}

-- A result that is set has the type.
pub data Sets : GoType → Outcome Value → Type 0 where
  sets : {t : GoType} {v : Value} → HasType t v → Sets t (ok v)
  sets_fail : {t : GoType} {e : GoError} → Sets t (fail e)
  sets_panic : {t : GoType} → Sets t panic

pub then-Sets :
    {First : Type 0} (t : GoType) (r : Outcome First) (f : First → Outcome Value)
    → ((x : First) → Sets t (f x))
    → Sets t (r >>= f)
then-Sets t (ok x) f h = h x
then-Sets t (fail e) f h = sets_fail
then-Sets t panic f h = sets_panic

pub if-Sets :
    (t : GoType) (b : Bool) (r s : Outcome Value)
    → Sets t r
    → Sets t s
    → Sets t (if b then r else s)
if-Sets t true r s h k = h
if-Sets t false r s h k = k

when-Sets :
    (t : GoType) (b : Bool) (r s : Outcome Value)
    → (b ≡ true → Sets t r)
    → Sets t s
    → Sets t (if b then r else s)
when-Sets t true r s h k = h refl
when-Sets t false r s h k = k

read-Sets :
    {First : Type 0} (t : GoType) (r : Outcome First) (f : First → Outcome Value)
    → ((x : First) → r ≡ ok x → Sets t (f x))
    → Sets t (r >>= f)
read-Sets t (ok x) f h = h x refl
read-Sets t (fail e) f h = sets_fail
read-Sets t panic f h = sets_panic

fits_int-InSigned : (bits : ℕ) (z : ℤ) → fits_int bits z ≡ true → InSigned bits z
unfolding fits_int
fits_int-InSigned bits (pos n) e = ground arith
fits_int-InSigned bits (negsuc n) e = ground arith

fits_uint-InUnsigned : (bits n : ℕ) → fits_uint bits n ≡ true → InUnsigned bits n
unfolding fits_uint
fits_uint-InUnsigned bits n e = ground arith

-- ParseInt and ParseUint give numbers within the width that they are asked for.
module _ (floats : Floats) (parsers : Parsers)
    (parse_int-InSigned : (s : Bytes) (bits : ℕ) (z : ℤ)
      → parsers.parse_int s bits ≡ ok z
      → InSigned bits z)
    (parse_uint-InUnsigned : (s : Bytes) (bits n : ℕ)
      → parsers.parse_uint s bits ≡ ok n
      → InUnsigned bits n) where
  set_int-Sets : (bits : ℕ) (z : ℤ) → Sets (scalar_type (int_kind bits)) (set_int bits z)
  unfolding set_int
  set_int-Sets bits z =
      when-Sets _ (fits_int bits z) _ _ (λ e. sets (int_typed bits z (fits_int-InSigned bits z e)))
        sets_fail

  set_uint-Sets : (bits n : ℕ) → Sets (scalar_type (uint_kind bits)) (set_uint bits n)
  unfolding set_uint
  set_uint-Sets bits n =
      when-Sets _ (fits_uint bits n) _ _
        (λ e. sets (uint_typed bits n (fits_uint-InUnsigned bits n e))) sets_fail

  set_float-Sets :
      (bits n : ℕ) → Sets (scalar_type (float_kind bits)) (set_float floats parsers bits n)
  unfolding set_float
  set_float-Sets bits n = if-Sets _ _ _ _ sets_fail (sets (float_typed bits _))

  parse_int-Sets :
      (bits : ℕ) (s : Bytes)
      → Sets (scalar_type (int_kind bits)) (parse_int_string floats parsers bits s)
  unfolding parse_int_string
  parse_int-Sets bits s =
      read-Sets _ (parsers.parse_int s bits) _
        (λ z e. sets (int_typed bits z (parse_int-InSigned s bits z e)))

  convert_to_int-Sets :
      (bits : ℕ) (c : DriverCell)
      → Sets (scalar_type (int_kind bits)) (convert_to_int floats parsers bits c)
  unfolding convert_to_int
  convert_to_int-Sets bits (int_cell w z) = set_int-Sets bits z
  convert_to_int-Sets bits (uint64_cell n) =
      if-Sets _ (ltb (2 ^ 63 - 1) n) (fail unsupported_type) _ sets_fail
        (set_int-Sets bits (of_u64 n))
  convert_to_int-Sets bits (uint_cell n) = set_int-Sets bits (of_u64 n)
  convert_to_int-Sets bits (small_uint_cell w n) = set_int-Sets bits (pos n)
  convert_to_int-Sets bits (float_cell w n) = if-Sets _ _ _ _ sets_fail (set_int-Sets bits _)
  convert_to_int-Sets bits (bytes_cell b) = parse_int-Sets bits b
  convert_to_int-Sets bits (string_cell s) = parse_int-Sets bits s
  convert_to_int-Sets bits null_cell = sets_fail
  convert_to_int-Sets bits _ = sets_fail

  parse_uint-Sets :
      (bits : ℕ) (s : Bytes)
      → Sets (scalar_type (uint_kind bits)) (parse_uint_string floats parsers bits s)
  unfolding parse_uint_string
  parse_uint-Sets bits s =
      read-Sets _ (parsers.parse_uint s bits) _
        (λ n e. sets (uint_typed bits n (parse_uint-InUnsigned s bits n e)))

  convert_to_uint-Sets :
      (bits : ℕ) (c : DriverCell)
      → Sets (scalar_type (uint_kind bits)) (convert_to_uint floats parsers bits c)
  unfolding convert_to_uint
  convert_to_uint-Sets bits (int_cell w (pos n)) = set_uint-Sets bits n
  convert_to_uint-Sets bits (int_cell w (negsuc n)) = sets_fail
  convert_to_uint-Sets bits (uint64_cell n) = set_uint-Sets bits n
  convert_to_uint-Sets bits (uint_cell n) = set_uint-Sets bits n
  convert_to_uint-Sets bits (small_uint_cell w n) = set_uint-Sets bits n
  convert_to_uint-Sets bits (float_cell w n) = if-Sets _ _ _ _ sets_fail (set_uint-Sets bits _)
  convert_to_uint-Sets bits (bytes_cell b) = parse_uint-Sets bits b
  convert_to_uint-Sets bits (string_cell s) = parse_uint-Sets bits s
  convert_to_uint-Sets bits null_cell = sets_fail
  convert_to_uint-Sets bits _ = sets_fail

  parse_float-Sets :
      (bits : ℕ) (s : Bytes)
      → Sets (scalar_type (float_kind bits)) (parse_float_string floats parsers bits s)
  unfolding parse_float_string
  parse_float-Sets bits s =
      then-Sets _ (parsers.parse_float s bits) _ (λ n. sets (float_typed bits n))

  convert_to_float-Sets :
      (bits : ℕ) (c : DriverCell)
      → Sets (scalar_type (float_kind bits)) (convert_to_float floats parsers bits c)
  unfolding convert_to_float
  convert_to_float-Sets bits (float_cell w n) = set_float-Sets bits _
  convert_to_float-Sets bits (int_cell w z) = if-Sets _ _ _ _ (set_float-Sets bits _) sets_fail
  convert_to_float-Sets bits (uint64_cell n) = set_float-Sets bits _
  convert_to_float-Sets bits (uint_cell n) = set_float-Sets bits _
  convert_to_float-Sets bits (bytes_cell b) = parse_float-Sets bits b
  convert_to_float-Sets bits (string_cell s) = parse_float-Sets bits s
  convert_to_float-Sets bits null_cell = sets_fail
  convert_to_float-Sets bits _ = sets_fail

  parse_bool-Sets : (s : Bytes) → Sets (scalar_type bool_kind) (parse_bool_string floats parsers s)
  unfolding parse_bool_string
  parse_bool-Sets s = then-Sets _ (parsers.parse_bool s) _ (λ b. sets (bool_typed b))

  pub convert_scalar-Sets :
      (k : ScalarKind) (c : DriverCell) → Sets (scalar_type k) (convert_scalar floats parsers k c)
  unfolding convert_scalar convert_to_bool convert_to_string
  convert_scalar-Sets (int_kind bits) c = convert_to_int-Sets bits c
  convert_scalar-Sets (uint_kind bits) c = convert_to_uint-Sets bits c
  convert_scalar-Sets (float_kind bits) c = convert_to_float-Sets bits c
  convert_scalar-Sets bool_kind (bool_cell b) = sets (bool_typed b)
  convert_scalar-Sets bool_kind (int_cell w z) = if-Sets _ _ _ _ (sets (bool_typed _)) sets_fail
  convert_scalar-Sets bool_kind (bytes_cell b) = parse_bool-Sets b
  convert_scalar-Sets bool_kind (string_cell s) = parse_bool-Sets s
  convert_scalar-Sets bool_kind null_cell = sets_fail
  convert_scalar-Sets bool_kind _ = sets_fail
  convert_scalar-Sets string_kind (string_cell s) = sets (string_typed s)
  convert_scalar-Sets string_kind (bytes_cell b) = sets (string_typed b)
  convert_scalar-Sets string_kind null_cell = sets_fail
  convert_scalar-Sets string_kind _ = sets_fail

  pub convert_to_bytes-Sets :
      (t : GoType) (c : DriverCell)
      → IsCell c
      → is_byte t ≡ true
      → Sets (slice_type t) (convert_to_bytes floats parsers t c)
  unfolding convert_to_bytes
  convert_to_bytes-Sets t (bytes_cell b) h e = sets (bytes_as-HasType t b h e)
  convert_to_bytes-Sets t (string_cell s) h e = sets (bytes_as-HasType t s h e)
  convert_to_bytes-Sets t null_cell h e = sets_fail
  convert_to_bytes-Sets t _ h e = sets_fail
